-- ===== src/Darc/Counts/Tests.antt =====
-- The counts of a `Darc` of two PEs: PE 0 sends a handle to PE 1, which counts it, drops it and reports it.
use lamellar_runtime.Prelude.{◌+◌, ◌≡◌, refl, true, [], ◌∷◌, arith}
use lamellar_runtime.Darc.Counts.{
  DarcInner, FinishedAm, new, inc_pe_ref_count, serialize_update_cnts, swap_ref_cnt, drop_darc,
  finished_exec, System, serialize, arrive, reports, start, Reach, here, next,
}
use lamellar_runtime.Darc.Counts.Tallies.{nth, on_the_way, counted, reported}
use lamellar_runtime.Darc.Counts.Balance.{dist_cnt_balance, finished_exec_fits}
use lamellar_runtime.Darc.Counts.Drops.{to_pe, drop_last_reports}

-- After PE 0 has sent a handle, with its counts.
abbrev one_sent : DarcInner
one_sent = record (new 2) { dist_cnt = 1; total_dist_cnt = 1 }

abbrev sent : System
sent = record { pes = one_sent ∷ new 2 ∷ []; in_flight = (0, 1) ∷ []; arrived = []; finished = [] }

-- After PE 1 has counted the reference.
abbrev one_counted : DarcInner
one_counted = record (new 2) { ref_cnts = 1 ∷ 0 ∷ []; total_ref_cnts = 1 ∷ 0 ∷ [] }

abbrev came : System
came = record { pes = one_sent ∷ one_counted ∷ []; in_flight = []; arrived = 1 ∷ []; finished = [] }

-- After PE 1 has reported it.
abbrev one_reported : DarcInner
one_reported = record one_counted { ref_cnts = 0 ∷ 0 ∷ [] }

abbrev reports_one : FinishedAm
reports_one = record { cnt = 1; src_pe = 0 }

abbrev told_one : System
told_one = record {
  pes = one_sent ∷ one_reported ∷ [];
  in_flight = [];
  arrived = 1 ∷ [];
  finished = reports_one ∷ [];
}

sent_reached : Reach (start 2) sent
unfolding start new serialize_update_cnts
sent_reached = next here (serialize (start 2) 0 (new 2) (1 ∷ []) refl (omega arith))

came_reached : Reach (start 2) came
unfolding start new inc_pe_ref_count
came_reached = next sent_reached (arrive sent 0 0 1 0 (new 2) one_sent refl refl refl refl)

told_reached : Reach (start 2) told_one
unfolding start new swap_ref_cnt
told_reached = next came_reached (reports came 1 0 one_counted refl)

dist_cnt_balance_example :
    one_sent.dist_cnt ≡ on_the_way 0 told_one + counted 0 told_one + reported 0 told_one
dist_cnt_balance_example = dist_cnt_balance 2 told_one 0 one_sent told_reached refl

finished_exec_fits_example : (finished_exec 1 one_sent).dist_cnt + 1 ≡ 1
finished_exec_fits_example =
    finished_exec_fits 2 told_one 0 reports_one one_sent told_reached refl refl

-- A PE whose only handle is dropped, with three references of PE 0 to report.
abbrev last_handle : DarcInner
last_handle = record {
  num_pes = 2;
  local_cnt = 1;
  total_local_cnt = 4;
  weak_local_cnt = 0;
  dist_cnt = 0;
  total_dist_cnt = 0;
  ref_cnts = 3 ∷ 0 ∷ [];
  total_ref_cnts = 3 ∷ 0 ∷ [];
  valid = true;
}

drop_last_reports_example :
    (nth (drop_darc last_handle).0.0.ref_cnts 0 ≡ 0)
    × (to_pe 0 (drop_darc last_handle).0.1 ≡ 3)
    × ((drop_darc last_handle).1 ≡ true)
drop_last_reports_example = drop_last_reports last_handle 0 refl (omega arith)
