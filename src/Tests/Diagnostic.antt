-- ===== src/Tests/Diagnostic.antt =====
-- Sorting a list of three diagnostics, two of which tie.
use scrape_kdl.Common.Text.{codes}
use scrape_kdl.Common.{ℕ, List, [], ◌∷◌}
use scrape_kdl.Diagnostic.Order.{IsStableSort, sorted-IsStableSort}
use scrape_kdl.Diagnostic.{Diagnostic, Severity, error, warning, plain, sorted}

abbrev at : ℕ → Severity → Diagnostic
at n s = record {
  code = codes "E_KDL_SYNTAX";
  severity = s;
  message = plain (codes "expected node name");
  span = record {
    file = codes "a.kdl";
    start = record { offset = n; line = 1; column = 1 };
    stop = record { offset = n; line = 1; column = 1 };
  };
  path = [];
}

abbrev three : List Diagnostic
three = at 7 error ∷ at 2 error ∷ at 2 warning ∷ []

sorted-IsStableSort_example : IsStableSort three (sorted three)
sorted-IsStableSort_example = sorted-IsStableSort three
