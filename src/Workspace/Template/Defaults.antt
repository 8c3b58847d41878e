-- ===== src/Workspace/Template/Defaults.antt =====
-- `defaultAppearance`, `defaultBlocks`, `defaultTemplate` and `snapshot` of
-- frontend-react/src/workspace/templateSchema.ts.
use billgen.Prelude.{String, true, false, List, [], ◌∷◌}
use billgen.Workspace.Template.Schema.{
  start, end, comfortable, reference, issue_date, due_date, payment_terms, percentage,
  TemplateBlock, of_header, of_parties, of_document_meta, of_items, of_totals, of_payment, of_notes,
  of_terms, of_footer, TemplateAppearance, satoshi, a4, standard, InvoiceTemplate, TemplateSnapshot,
}

unfoldable pub default_appearance : TemplateAppearance
default_appearance = record {
  brand = record { color = "#0f766e"; text_token = "--bg-ink"; border_token = "--bg-line" };
  typography = record { font_family = satoshi; body_size_pt = 10; heading_size_pt = 24 };
  page = record { size = a4; margins = standard; density = comfortable };
}

unfoldable pub default_blocks : List TemplateBlock
default_blocks =
    record {
      id = "header";
      visible = true;
      properties = of_header (record {
        show_logo = true;
        show_company_name = true;
        show_company_contact = true;
        document_title = "INVOICE";
        alignment = start;
      });
    }
    ∷ record {
      id = "parties";
      visible = true;
      properties = of_parties (record {
        show_seller_address = true;
        show_seller_vat = true;
        show_customer_vat = true;
        customer_alignment = end;
      });
    }
    ∷ record {
      id = "document_meta";
      visible = true;
      properties = of_document_meta (reference ∷ issue_date ∷ due_date ∷ payment_terms ∷ []);
    }
    ∷ record {
      id = "items";
      visible = true;
      properties = of_items (record {
        columns = "description" ∷ "quantity" ∷ "unit_price" ∷ "vat" ∷ "total" ∷ [];
        decimals = 2;
        vat_display = percentage;
        show_line_discount = false;
      });
    }
    ∷ record {
      id = "totals";
      visible = true;
      properties = of_totals (record {
        show_subtotal = true;
        show_discount = true;
        show_vat_summary = true;
        show_amount_due = true;
      });
    }
    ∷ record {
      id = "payment";
      visible = true;
      properties = of_payment (record {
        show_iban = true;
        show_bic = false;
        show_structured_communication = true;
        show_payment_terms = true;
        show_qr_code = false;
      });
    }
    ∷ record { id = "notes"; visible = true; properties = of_notes (record { body = "" }) }
    ∷ record { id = "terms"; visible = false; properties = of_terms (record { body = "" }) }
    ∷ record {
      id = "footer";
      visible = true;
      properties =
          of_footer (record { body = ""; show_page_numbers = true; show_billgen_branding = true });
    }
    ∷ []

-- `now` is the time as `new Date().toISOString()` gives it.
unfoldable pub default_template : String → String → String → InvoiceTemplate
unfolding default_blocks default_appearance
default_template now id name = record {
  id = id;
  name = name;
  is_default = true;
  blocks = default_blocks;
  appearance = default_appearance;
  published_version = 1;
  updated_at = now;
}

pub snapshot : String → InvoiceTemplate → TemplateSnapshot
snapshot now t = record {
  template_id = t.id;
  template_name = t.name;
  version = t.published_version;
  taken_at = now;
  blocks = t.blocks;
  appearance = t.appearance;
}
