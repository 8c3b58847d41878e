-- ===== src/Scaffold/Ia/Ledger.antt =====
-- `coverage` and `missingEndpoints` of frontend-react/src/scaffold/ia.ts. The percentage, which is
-- computed in floating point, and the sort of an array of texts are parameters.
use billgen.Prelude.{
  ℕ, suc, ◌+◌, String, Bool, true, false, List, [], ◌∷◌, ◌++◌, ◌===◌, ◌==◌, if◌then◌else◌, filter,
  length, filter-append, length-append, ◌≡◌, refl, sym, ap, ◌∙◌, arith, Bool-cases, inl, inr,
  eq_iff,
}
use billgen.Scaffold.Ia.Pruned.{leaves}
use billgen.Scaffold.Ia.{
  BackendStatus, wired, partial, unbuilt, IaTree, node, info, children, IaForest, leafless, grow,
  is_leaf, flatten_ia, includes_text, is_wired,
}

pub record IaCoverage : Type 0 where
  pub wired_count : ℕ
  pub partial_count : ℕ
  pub none_count : ℕ
  pub total : ℕ
  pub percent : ℕ

abbrev pub is_partial : BackendStatus → Bool
is_partial partial = true
is_partial _ = false

abbrev pub is_unbuilt : BackendStatus → Bool
is_unbuilt unbuilt = true
is_unbuilt _ = false

abbrev pub has_no_children : IaTree → Bool
has_no_children t = is_leaf (children t)

module _ (percentage : ℕ → ℕ → ℕ) where
  abbrev pub coverage_of : List IaTree → IaCoverage
  coverage_of leaves =
      let wired_leaves = length (filter (λ t. is_wired (info t).status) leaves) in
      let total = length leaves in
      record {
        wired_count = wired_leaves;
        partial_count = length (filter (λ t. is_partial (info t).status) leaves);
        none_count = length (filter (λ t. is_unbuilt (info t).status) leaves);
        total = total;
        percent = if total == 0 then 0 else percentage wired_leaves total;
      }

  unfoldable pub coverage : IaForest → IaCoverage
  unfolding flatten_ia
  coverage ts = coverage_of (filter has_no_children (flatten_ia ts))

abbrev pub all_missing : List IaTree → List String
all_missing [] = []
all_missing (t ∷ ts) = (info t).missing ++ all_missing ts

-- `[...new Set(texts)]`: each text where it first stands.
abbrev pub unique : List String → List String → List String
unique seen [] = []
unique seen (s ∷ ss) =
    let again = unique seen ss in
    let first = unique (s ∷ seen) ss in if includes_text seen s then again else s ∷ first

abbrev pub count : String → List String → ℕ
count s [] = 0
count s (t ∷ ts) = let rest = count s ts in if t === s then suc rest else rest

module _ (sort : List String → List String) where
  unfoldable pub missing_endpoints : IaForest → List String
  unfolding flatten_ia
  missing_endpoints ia = sort (unique [] (all_missing (flatten_ia ia)))

statuses_step :
    (s : BackendStatus) (t : IaTree) (ws ps us : List IaTree) {n : ℕ}
    → length ws + (length ps + length us) ≡ n
    → length (if is_wired s then t ∷ ws else ws)
        + (length (if is_partial s then t ∷ ps else ps)
            + length (if is_unbuilt s then t ∷ us else us))
      ≡ suc n
statuses_step wired t ws ps us h = omega (arith, h)
statuses_step partial t ws ps us h = omega (arith, h)
statuses_step unbuilt t ws ps us h = omega (arith, h)

statuses-length :
    (ts : List IaTree)
    → length (filter (λ t. is_wired (info t).status) ts)
        + (length (filter (λ t. is_partial (info t).status) ts)
            + length (filter (λ t. is_unbuilt (info t).status) ts))
      ≡ length ts
statuses-length [] = refl
statuses-length (node n cs ∷ ts) =
    statuses_step n.status (node n cs) (filter (λ t. is_wired (info t).status) ts)
      (filter (λ t. is_partial (info t).status) ts) (filter (λ t. is_unbuilt (info t).status) ts)
      (statuses-length ts)

same_text : (s t : String) → (t === s) ≡ true → t ≡ s
same_text s t e = (eq_iff t s).0 e

abbrev once : Bool → Bool → ℕ
once before here = if before then 0 else if here then 1 else 0

includes_same :
    (s : String) (seen : List String) (t : String) {b : Bool}
    → includes_text seen t ≡ b
    → (t === s) ≡ true
    → includes_text seen s ≡ b
includes_same s seen t b c = sym (ap (includes_text seen) (same_text s t c)) ∙ b

found_again :
    (s : String) (seen : List String) (t : String) (ts : List String)
    → includes_text seen t ≡ true
    → (t === s) ≡ true
    → once (includes_text seen s) (includes_text ts s)
      ≡ once (includes_text seen s) (includes_text (t ∷ ts) s)
found_again s seen t ts b c = simp (includes_same s seen t b c)

count-unique :
    (s : String) (seen ts : List String)
    → count s (unique seen ts) ≡ once (includes_text seen s) (includes_text ts s)
count-unique s seen [] = elim (Bool-cases (includes_text seen s)) [
  | inl e ↦ simp e
  | inr e ↦ simp e
]
count-unique s seen (t ∷ ts) = elim (Bool-cases (includes_text seen t)) [
  | inl b ↦ simp b (elim (Bool-cases (t === s)) [
    | inl c ↦ count-unique s seen ts ∙ found_again s seen t ts b c
    | inr c ↦ simp c (count-unique s seen ts)
  ])
  | inr b ↦ simp b (elim (Bool-cases (t === s)) [
    | inl c ↦ simp c (rw (count-unique s (t ∷ seen) ts) (simp (c, includes_same s seen t b c)))
    | inr c ↦ simp c (rw (count-unique s (t ∷ seen) ts) (simp c))
  ])
]

leaves-length :
    (ts : IaForest) → length (filter has_no_children (flatten_ia ts)) ≡ length (leaves ts)
unfolding flatten_ia
leaves-length leafless = refl
leaves-length (grow (node n leafless) ts) = ap suc (leaves-length ts)
leaves-length (grow (node n (grow u us)) ts) =
    ap length (filter-append has_no_children (flatten_ia (grow u us)) (flatten_ia ts))
    ∙ length-append (filter has_no_children (flatten_ia (grow u us)))
        (filter has_no_children (flatten_ia ts))
    ∙ omega (
      arith,
      leaves-length (grow u us),
      leaves-length ts,
      length-append (leaves (grow u us)) (leaves ts),
    )

-- Whatever the tree, every node without children is counted once: the three counts of `coverage` add
-- up to its total, which is the number of the tree's leaves.
coverage-total :
    (percentage : ℕ → ℕ → ℕ) (ts : IaForest)
    → let c = coverage percentage ts in
      (c.wired_count + (c.partial_count + c.none_count) ≡ c.total) × (c.total ≡ length (leaves ts))
unfolding coverage
coverage-total percentage ts =
    (statuses-length (filter has_no_children (flatten_ia ts)), leaves-length ts)

-- With a sort that keeps how often each text stands in a list: an endpoint stands once in the list of
-- missing endpoints if some node of the tree misses it, and not at all otherwise.
missing_endpoints-count :
    (sort : List String → List String) (ts : IaForest) (s : String)
    → ((t : String) (us : List String) → count t (sort us) ≡ count t us)
    → count s (missing_endpoints sort ts)
      ≡ (if includes_text (all_missing (flatten_ia ts)) s then 1 else 0)
unfolding missing_endpoints
missing_endpoints-count sort ts s h =
    h s (unique [] (all_missing (flatten_ia ts))) ∙ count-unique s [] (all_missing (flatten_ia ts))
