-- ===== src/Examples/Cursor.antt =====
-- The cursors of src/ac-search/ac_cursor.c at concrete inputs.
use another_c_library.Prelude.{◌∷◌, [], refl, arith, false}
use another_c_library.Cursor.{Cursor, range}
use another_c_library.Cursor.Range.Seeks.{range_operations, range_laws}
use another_c_library.Cursor.And.{And, advance_and, advance_and_to}
use another_c_library.Cursor.And.Laws.{GoodAnd, Leads, advance_and-Leads, advance_and_to-Leads}
use another_c_library.Cursor.Not.{Not, advance, advance_to}
use another_c_library.Cursor.Not.Laws.{GoodNot}
use another_c_library.Cursor.Not.Calls.{LeadsTo, advance-LeadsNot, advance_to-LeadsNot}

-- The numbers from 1 to 9, and from 3 to 5.
abbrev both : And Cursor
both = record { first = range 1 10; others = range 3 6 ∷ []; current = 0; emptied = false }

both-GoodAnd : GoodAnd range_operations range_laws both
unfolding range range_laws
both-GoodAnd = record {
  good = (
    ((λ e. absurd (cc e)), (λ e. (omega arith, omega arith, omega arith, omega arith, refl))),
    (((λ e. absurd (cc e)), (λ e. (omega arith, omega arith, omega arith, omega arith, refl))), tt),
  );
  have = λ ne. absurd (ne refl);
  in_step = λ ne. absurd (ne refl);
  over = λ h. refl;
}

advance_and-Leads_example :
    Leads range_operations range_laws Unit both
      (advance_and range_operations both)
      (range_laws.lower both.first)
advance_and-Leads_example = advance_and-Leads range_operations range_laws both both-GoodAnd

advance_and_to-Leads_example :
    Leads range_operations range_laws
      (range_laws.Settled both.first)
      both
      (advance_and_to range_operations both 4)
      4
advance_and_to-Leads_example =
    advance_and_to-Leads range_operations range_laws both both-GoodAnd 4 (omega arith)

-- The numbers from 1 to 9 without those from 3 to 5, after the first of them.
abbrev difference : Not Cursor Cursor
difference = record {
  pos = record { current = 1; next = 2; end = 10; pending = false; stuck = false; emptied = false };
  neg = range 3 6;
  current = 1;
  pos_only = false;
  emptied = false;
}

difference-GoodNot : GoodNot range_operations range_laws range_operations range_laws difference
unfolding range range_laws
difference-GoodNot = record {
  good_pos =
      ((λ e. absurd (cc e)), (λ e. (omega arith, omega arith, omega arith, omega arith, refl)));
  good_neg =
      ((λ e. absurd (cc e)), (λ e. (omega arith, omega arith, omega arith, omega arith, refl)));
  over = λ h. absurd (cc h);
  have = λ ne. (refl, (refl, omega arith, omega arith), (λ h. absurd (omega (arith, h.1))));
  in_step = λ ne. refl;
  neg_over = λ f h. absurd (cc h);
}

advance-LeadsNot_example :
    LeadsTo range_operations range_laws range_operations range_laws difference
      (range_laws.lower difference.pos)
      (advance range_operations range_operations difference)
advance-LeadsNot_example =
    advance-LeadsNot range_operations range_laws range_operations range_laws difference
      difference-GoodNot

difference-settled : range_laws.Settled difference.pos
unfolding range_laws
difference-settled = refl

advance_to-LeadsNot_example :
    LeadsTo range_operations range_laws range_operations range_laws difference 4
      (advance_to range_operations range_operations difference 4)
advance_to-LeadsNot_example =
    advance_to-LeadsNot range_operations range_laws range_operations range_laws difference
      difference-GoodNot 4 difference-settled (omega arith)
