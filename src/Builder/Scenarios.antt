-- ===== src/Builder/Scenarios.antt =====
-- The theorems on the invoice builder, on a book that is sold at home or to a client abroad.
use billgen.Prelude.{true, false, List, [], ◌∷◌, none, some, ◌≡◌, refl, ◌===◌}
use billgen.Builder.{
  Numbers, Remote, ProductResponse, RateOption, default_rate, product_rate, lines_are_valid,
}
use billgen.Builder.Panel.{
  Action, product_picked, client_chosen, line_added, line_removed, open_panel, run, create_body,
  new_item_body,
}
use billgen.Builder.Rates.{rate_at, order_of_choices}
use billgen.Builder.Runs.{IsSound, last_remote, open_panel-IsSound}

abbrev plain : Numbers
plain = record {
  same_number = λ a b. a === b;
  is_positive = λ s. true;
  is_nan = λ s. false;
  trim = λ s. s;
}

abbrev book : ProductResponse
book = record { id = "book"; name = "Book"; unit_price = "12.500000"; default_vat_rate = some "6" }

abbrev served : List RateOption
served =
    record { rate = "21"; label = "21%"; is_default = true }
    ∷ record { rate = "6"; label = "6%"; is_default = false }
    ∷ []

abbrev home : Remote
home = record { rates = served; treatment = none; catalog = book ∷ [] }

abbrev abroad : Remote
abroad = record {
  rates = served;
  treatment = some (record { category = "AE"; rate = "0" });
  catalog = book ∷ [];
}

order_of_choices_example :
    (rate_at 0 (
        run plain
          ((home, product_picked 0 "book") ∷ (abroad, client_chosen "client") ∷ [])
          (open_panel plain home))
      ≡ some (product_rate plain home book))
    × (rate_at 0 (
          run plain
            ((abroad, client_chosen "client") ∷ (abroad, product_picked 0 "book") ∷ [])
            (open_panel plain home))
        ≡ some (default_rate plain abroad))
unfolding open_panel
order_of_choices_example =
    order_of_choices plain home abroad (open_panel plain home) 0 "book" "client" book book refl refl
      refl refl refl refl refl refl

-- The first of the two charges 6 to a client whose category charges nothing.
kept_test : product_rate plain home book ≡ "6"
kept_test = refl

advised_test : default_rate plain abroad ≡ "0"
advised_test = refl

abbrev pressed : List (Remote × Action)
pressed =
    (home, line_added)
    ∷ (home, product_picked 1 "book")
    ∷ (abroad, client_chosen "client")
    ∷ (abroad, line_removed 0)
    ∷ (abroad, line_removed 0)
    ∷ []

open_panel-IsSound_example :
    IsSound plain (last_remote plain home pressed) (run plain pressed (open_panel plain home))
open_panel-IsSound_example = open_panel-IsSound plain pressed home

incomplete_test : create_body plain "company" home (open_panel plain home) ≡ none
unfolding create_body lines_are_valid open_panel
incomplete_test = refl

closed_test : new_item_body plain "company" home (open_panel plain home) ≡ none
unfolding new_item_body open_panel
closed_test = refl
