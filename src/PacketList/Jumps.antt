-- ===== src/PacketList/Jumps.antt =====
-- The packets that are taken for retransmitted ones: those whose delay jumps.
use copa_new.Prelude.{
  ℕ, zero, suc, ◌/◌, ◌^◌, ◌≤◌, ◌<◌, ◌≡◌, refl, ap, ◌∙◌, List, [], ◌∷◌, false, none, some, leb,
  if◌then◌else◌, length, take, map, All, Bool-cases, inl, inr, le→leb, arith,
}
use mathlib.Core.Option
use copa_new.Prelude.Int.{pos, abs_diff, leb_ℤ}
use copa_new.Prelude.Word.{as_int, abs-long_diff}
use copa_new.PacketList.{
  PacketNode, Delay, RetxPkts, retx_pkts, delay_diff_ms, delays_from, delays, is_retx, nof_retx_pkt,
  extract_retx_from_pkt, get_retx, c_div, re_tx_delay_thd,
}

-- The packets whose one-way delay differs by 7 ms or more from that of the packet before.
pub jumps : ℕ → List PacketNode → List PacketNode
jumps last_oneway [] = []
jumps last_oneway (p ∷ ps) =
    let rest : List PacketNode = jumps p.oneway_us ps in
    if leb 7000 (abs_diff p.oneway_us last_oneway) then p ∷ rest else rest

-- On delays below 2^31 microseconds, the difference in milliseconds is that of the numbers.
delay_diff_ms-pos :
    (a b : ℕ) → a < 2 ^ 31 → b < 2 ^ 31 → delay_diff_ms a b ≡ pos (abs_diff a b / 1000)
unfolding delay_diff_ms
delay_diff_ms-pos a b ha hb =
    rw (abs-long_diff a b (omega arith) (omega arith)) (as_int_small (abs_diff a b) (omega arith))
  where
    as_int-pos : (n : ℕ) → n < 2 ^ 31 → as_int n ≡ pos n
    as_int-pos n h = ground arith

    as_int_small : (n : ℕ) → n < 2 ^ 31 → c_div (as_int n) 1000 ≡ pos (n / 1000)
    as_int_small n h = ap (λ z. c_div z 1000) (as_int-pos n h)

nof_retx_pkt-length : (ds : List Delay) → nof_retx_pkt ds ≡ length (extract_retx_from_pkt ds)
unfolding nof_retx_pkt extract_retx_from_pkt
nof_retx_pkt-length [] = refl
nof_retx_pkt-length (d ∷ ds) =
    let rest = nof_retx_pkt-length ds in
    elim (Bool-cases (is_retx d)) [
      | inl jump ↦ rw jump (omega (arith, rest))
      | inr calm ↦ rw calm rest
    ]

is_retx-leb :
    (d : Delay) (a b : ℕ)
    → a < 2 ^ 31
    → b < 2 ^ 31
    → d.diff_ms ≡ delay_diff_ms a b
    → is_retx d ≡ leb 7000 (abs_diff a b)
unfolding is_retx
is_retx-leb d a b ha hb e =
    ap (leb_ℤ (pos re_tx_delay_thd)) (e ∙ delay_diff_ms-pos a b ha hb) ∙ thousandths (abs_diff a b)
  where
    thousandths : (n : ℕ) → leb_ℤ (pos 7) (pos (n / 1000)) ≡ leb 7000 n
    thousandths n = ground arith

abbrev pub HasShortDelay : PacketNode → Type 0
HasShortDelay p = p.oneway_us < 2 ^ 31

extract-delays_from :
    (n : ℕ) (ps : List PacketNode) (last_oneway : ℕ)
    → last_oneway < 2 ^ 31
    → All HasShortDelay ps
    → extract_retx_from_pkt (delays_from last_oneway ps n)
      ≡ map (λ p. p.recv_t_us) (jumps last_oneway (take n ps))
unfolding extract_retx_from_pkt delays_from jumps
extract-delays_from zero ps o ho h = refl
extract-delays_from (suc n) [] o ho h = refl
extract-delays_from (suc n) (p ∷ ps) o ho h =
    let rest = extract-delays_from n ps p.oneway_us h.0 h.1 in
    let d : Delay = record {
      diff_ms = delay_diff_ms p.oneway_us o;
      recv_t_us = p.recv_t_us;
      oneway_us = p.oneway_us;
    } in
    let test = is_retx-leb d p.oneway_us o h.0 ho refl in
    elim (Bool-cases (leb 7000 (abs_diff p.oneway_us o))) [
      | inl jump ↦ rw (test, jump) (ap (◌∷◌ p.recv_t_us) rest)
      | inr calm ↦ rw (test, calm) rest
    ]

first_calm :
    (d : Delay)
    → d.diff_ms ≡ pos 0
    → (ds : List Delay) → extract_retx_from_pkt (d ∷ ds) ≡ extract_retx_from_pkt ds
unfolding extract_retx_from_pkt is_retx
first_calm d e ds = let calm : is_retx d ≡ false = ap (leb_ℤ (pos re_tx_delay_thd)) e in rw calm

oneways-delays_from :
    (n : ℕ) (ps : List PacketNode) (last_oneway : ℕ)
    → (map (λ d. d.recv_t_us) (delays_from last_oneway ps n) ≡ map (λ p. p.recv_t_us) (take n ps))
      × (map (λ d. d.oneway_us) (delays_from last_oneway ps n) ≡ map (λ p. p.oneway_us) (take n ps))
unfolding delays_from
oneways-delays_from zero ps o = (refl, refl)
oneways-delays_from (suc n) [] o = (refl, refl)
oneways-delays_from (suc n) (p ∷ ps) o =
    let (a, b) = oneways-delays_from n ps p.oneway_us in
    (ap (◌∷◌ p.recv_t_us) a, ap (◌∷◌ p.oneway_us) b)

-- What is fetched from the first packets of a list: their times and delays, and the times and the
-- number of those whose delay jumps.
pub record IsFetched (p : PacketNode) (ps : List PacketNode) (r : RetxPkts) : Type 0 where
  pub retx_eq : r.retx_recv_t_us ≡ map (λ n. n.recv_t_us) (jumps p.oneway_us ps)
  pub count : r.nof_retx ≡ length r.retx_recv_t_us
  pub times : map (λ d. d.recv_t_us) r.all ≡ map (λ n. n.recv_t_us) (p ∷ ps)
  pub oneways : map (λ d. d.oneway_us) r.all ≡ map (λ n. n.oneway_us) (p ∷ ps)

-- On packets with delays below 2^31 microseconds, and for a length of one up to that of the list,
-- the function fetches the times and delays of that many packets, and exactly the times of those
-- among them whose delay differs by 7 ms or more from that of the packet before.
pub get_retx-IsFetched :
    (p : PacketNode) (ps : List PacketNode) (n : ℕ)
    → All HasShortDelay (p ∷ ps)
    → n ≤ length ps
    → (r : RetxPkts) × (get_retx (p ∷ ps) (suc n) ≡ some (some r)) × IsFetched p (take n ps) r
unfolding get_retx delays
get_retx-IsFetched p ps n h le =
    let first : Delay = record {
      diff_ms = pos 0;
      recv_t_us = p.recv_t_us;
      oneway_us = p.oneway_us;
    } in
    let ds : List Delay = first ∷ delays_from p.oneway_us ps n in
    let (a, b) = oneways-delays_from n ps p.oneway_us in
    (
      retx_pkts ds,
      ap (λ t. Option.map (λ xs. some (retx_pkts xs)) (if t then some ds else none))
          (le→leb n (length ps) le),
      record {
        retx_eq =
            first_calm first refl (delays_from p.oneway_us ps n)
            ∙ extract-delays_from n ps p.oneway_us h.0 h.1;
        count = nof_retx_pkt-length ds;
        times = ap (◌∷◌ p.recv_t_us) a;
        oneways = ap (◌∷◌ p.oneway_us) b;
      },
    )
