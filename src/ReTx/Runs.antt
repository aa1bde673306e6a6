-- ===== src/ReTx/Runs.antt =====
-- Runs of the reordering buffer, and its theorems at concrete inputs.
use copa_new.Prelude.{
  ℕ, ◌-◌, ◌≡◌, ◌⊎◌, refl, List, [], ◌∷◌, Bool, true, false, ◌&&◌, ltb, if◌then◌else◌, length,
  get_or, arith,
}
use copa_new.Prelude.Int.{pos, negsuc, abs}
use copa_new.Prelude.Word.{as_long, sub64}
use copa_new.Arrays.{nearest_neighbour_index}
use copa_new.Tti.{wrap_tti, tti_a_se_b}
use copa_new.ReTx.{CaTrace, init_buf, update_retx_buf, already_seen}
use copa_new.ReTx.Update.{IsUpdate, update_retx_buf-IsUpdate}
use copa_new.ReTx.BurstStart.{is_burst_start, find_burst_start, IsNear, find_burst_start_cases}

-- A trace with a retransmission in its second subframe.
abbrev trace : CaTrace
trace = record {
  retx = false ∷ true ∷ false ∷ [];
  tti = 5 ∷ 6 ∷ 7 ∷ [];
  tbs = 100 ∷ 200 ∷ 300 ∷ [];
  rx_t_us = 1000 ∷ 2000 ∷ 3000 ∷ [];
  size = 3;
}

update_retx_buf-IsUpdate_example :
    IsUpdate init_buf (update_retx_buf init_buf trace).0 (update_retx_buf init_buf trace).1
update_retx_buf-IsUpdate_example =
    update_retx_buf-IsUpdate init_buf trace (λ a. absurd (ground arith))

and_false : (b : Bool) → (b && false) ≡ false
and_false true = refl
and_false false = refl

nothing_seen : already_seen init_buf trace 1 ≡ false
unfolding already_seen
nothing_seen = and_false (tti_a_se_b (wrap_tti 6) (wrap_tti 0))

find_burst_start_cases_example :
    let times : List ℕ = 1000 ∷ 2000 ∷ 9000 ∷ [] in
    let oneway : List ℕ = 100 ∷ 110 ∷ 5000 ∷ [] in
    let index = nearest_neighbour_index times 9100 in
    let result = find_burst_start times oneway 9100 in
    ((j : ℕ) × (result ≡ pos j)
      × IsNear times oneway index j
      × (is_burst_start times oneway j ≡ true))
    ⊎ (((j : ℕ) → IsNear times oneway index j → is_burst_start times oneway j ≡ false)
        × (result ≡ (
            if ltb (abs (as_long (sub64 9100 (get_or times (length times - 1) 0)))) 10000
            then negsuc 0
            else pos index)))
find_burst_start_cases_example =
    find_burst_start_cases (1000 ∷ 2000 ∷ 9000 ∷ []) (100 ∷ 110 ∷ 5000 ∷ []) 9100
