-- ===== src/ReTx/BurstStart.antt =====
-- ngscope_reTx.cc, lines 345-428: the packet at which a burst of retransmissions begins.
use copa_new.Prelude.{
  ℕ, zero, suc, ◌+◌, ◌-◌, ◌≤◌, ◌<◌, ◌≡◌, ◌⊎◌, inl, inr, refl, ap, ◌∙◌, Bool-cases, lt_or_le, le→leb,
  List, Bool, true, false, ◌&&◌, Option, none, some, ltb, leb, ◌==◌, if◌then◌else◌, length, get_or,
  arith,
}
use copa_new.Prelude.Int.{ℤ, pos, negsuc, ◌-ℤ◌, abs, ltb_ℤ}
use copa_new.Prelude.Word.{as_long, sub64}
use copa_new.Arrays.{nearest_neighbour_index}

-- `TIME_DIFF_THD`, `ONEWAY_DIFF_THD` and `BURST_FIND_SEARCH_PKT`.
abbrev pub time_diff_thd : ℕ
time_diff_thd = 6500

abbrev pub oneway_diff_thd : ℕ
oneway_diff_thd = 3500

abbrev pub burst_find_search_pkt : ℕ
burst_find_search_pkt = 8

-- The lists are those of the `pkt_num` packets.
pub is_burst_start : List ℕ → List ℕ → ℕ → Bool
is_burst_start pkt_t_us oneway index =
    let gap : List ℕ → ℤ = λ xs. as_long (get_or xs index 0) -ℤ as_long (get_or xs (index - 1) 0) in
    if leb (length pkt_t_us) index
    then false
    else if index == 0
    then true
    else leb time_diff_thd (abs (gap pkt_t_us)) && ltb_ℤ (pos oneway_diff_thd) (gap oneway)

-- `n` rounds of the loop that counts `i` down, and of the one that counts it up.
search_back : List ℕ → List ℕ → ℕ → ℕ → Option ℕ
search_back pkt_t_us oneway zero i = none
search_back pkt_t_us oneway (suc n) i =
    let rest : Option ℕ = search_back pkt_t_us oneway n (i - 1) in
    if is_burst_start pkt_t_us oneway i then some i else rest

search_on : List ℕ → List ℕ → ℕ → ℕ → Option ℕ
search_on pkt_t_us oneway zero i = none
search_on pkt_t_us oneway (suc n) i =
    let rest : Option ℕ = search_on pkt_t_us oneway n (i + 1) in
    if is_burst_start pkt_t_us oneway i then some i else rest

or_else : Option ℕ → Option ℕ → Option ℕ
or_else (some i) o = some i
or_else none o = o

found_or : Option ℕ → ℤ → ℤ
found_or (some i) z = pos i
found_or none z = z

search_around : List ℕ → List ℕ → ℕ → Option ℕ
search_around pkt_t_us oneway index =
    or_else
      (search_back pkt_t_us oneway
        (if ltb index burst_find_search_pkt then index + 1 else burst_find_search_pkt) index)
      (search_on pkt_t_us oneway
        (if ltb (index + burst_find_search_pkt) (length pkt_t_us)
          then burst_find_search_pkt - 1
          else length pkt_t_us - (index + 1))
        (index + 1))

-- For one packet or more; of none, the last one would be read at index -1.
pub find_burst_start : List ℕ → List ℕ → ℕ → ℤ
find_burst_start pkt_t_us oneway dci_retx_t_us =
    let index : ℕ = nearest_neighbour_index pkt_t_us dci_retx_t_us in
    let time_diff : ℕ =
      abs (as_long (sub64 dci_retx_t_us (get_or pkt_t_us (length pkt_t_us - 1) 0))) in
    found_or (search_around pkt_t_us oneway index)
      (if ltb time_diff 10000 then negsuc 0 else pos index)

-- What a search found in the places that `inside` describes.
data Searched (pkt_t_us oneway : List ℕ) (inside : ℕ → Type 0) : Option ℕ → Type 0 where
  at_start :
      (j : ℕ)
      → inside j
      → is_burst_start pkt_t_us oneway j ≡ true
      → Searched pkt_t_us oneway inside (some j)
  no_start :
      ((j : ℕ) → inside j → is_burst_start pkt_t_us oneway j ≡ false)
      → Searched pkt_t_us oneway inside none

module _ (pkt_t_us oneway : List ℕ) where
  widen :
      {P Q : ℕ → Type 0} (i : ℕ) (o : Option ℕ)
      → is_burst_start pkt_t_us oneway i ≡ false
      → ((j : ℕ) → Q j → (j ≡ i) ⊎ P j)
      → ((j : ℕ) → P j → Q j)
      → Searched pkt_t_us oneway P o
      → Searched pkt_t_us oneway Q o
  widen i _ is_no split into (at_start j p s) = at_start j (into j p) s
  widen i _ is_no split into (no_start f) = no_start λ j q. elim (split j q) [
    | inl e ↦ ap (is_burst_start pkt_t_us oneway) e ∙ is_no
    | inr p ↦ f j p
  ]

  -- One more place is searched before the others.
  step-Searched :
      {P Q : ℕ → Type 0} (i : ℕ) (o : Option ℕ)
      → Q i
      → ((j : ℕ) → Q j → (j ≡ i) ⊎ P j)
      → ((j : ℕ) → P j → Q j)
      → Searched pkt_t_us oneway P o
      → Searched pkt_t_us oneway Q (if is_burst_start pkt_t_us oneway i then some i else o)
  step-Searched i o q split into s = elim (Bool-cases (is_burst_start pkt_t_us oneway i)) [
    | inl is_yes ↦ rw is_yes (at_start i q is_yes)
    | inr is_no ↦ rw is_no (widen i o is_no split into s)
  ]

  search_back-Searched :
      (n i : ℕ)
      → n ≤ i + 1
      → Searched pkt_t_us oneway (λ j. (j ≤ i) × (i < j + n)) (search_back pkt_t_us oneway n i)
  unfolding search_back
  search_back-Searched zero i h = no_start λ j (a, b). absurd (omega arith)
  search_back-Searched (suc n) i h =
      step-Searched i (search_back pkt_t_us oneway n (i - 1)) (omega arith) (λ j q. ground arith)
        (λ j p. ground arith) (search_back-Searched n (i - 1) (omega arith))

  search_on-Searched :
      (n i : ℕ)
      → Searched pkt_t_us oneway (λ j. (i ≤ j) × (j < i + n)) (search_on pkt_t_us oneway n i)
  unfolding search_on
  search_on-Searched zero i = no_start λ j (a, b). absurd (omega arith)
  search_on-Searched (suc n) i =
      step-Searched i (search_on pkt_t_us oneway n (i + 1)) (omega arith) (λ j q. ground arith)
        (λ j p. ground arith) (search_on-Searched n (i + 1))

  -- Up to 7 places away from the given one.
  abbrev pub IsNear : ℕ → ℕ → Type 0
  IsNear index j = (index < j + 8) × (j < index + 8)

  or_else-Searched :
      {P Q R : ℕ → Type 0} (o o' : Option ℕ)
      → ((j : ℕ) → R j → is_burst_start pkt_t_us oneway j ≡ true → P j ⊎ Q j)
      → ((j : ℕ) → P j → R j)
      → ((j : ℕ) → Q j → R j)
      → Searched pkt_t_us oneway P o
      → Searched pkt_t_us oneway Q o'
      → Searched pkt_t_us oneway R (or_else o o')
  unfolding or_else
  or_else-Searched _ o' split fst snd (at_start j p s) t = at_start j (fst j p) s
  or_else-Searched _ _ split fst snd (no_start f) (at_start j q s) = at_start j (snd j q) s
  or_else-Searched _ _ split fst snd (no_start f) (no_start g) = no_start λ j r.
      elim (Bool-cases (is_burst_start pkt_t_us oneway j)) [
        | inr is_no ↦ is_no
        | inl is_yes ↦ elim (split j r is_yes) [ inl p ↦ f j p | inr q ↦ g j q ]
      ]

  is_burst_start-lt : (j : ℕ) → is_burst_start pkt_t_us oneway j ≡ true → j < length pkt_t_us
  unfolding is_burst_start
  is_burst_start-lt j h = elim (lt_or_le j (length pkt_t_us)) [
    | inl lt ↦ lt
    | inr ge ↦ let is_no = le→leb (length pkt_t_us) j ge in absurd (ground arith)
  ]

  -- The two searches cover the places near the index.
  around :
      (index j : ℕ)
      → j < length pkt_t_us
      → IsNear index j
      → let n = if ltb index 8 then index + 1 else 8 in
        let m = if ltb (index + 8) (length pkt_t_us) then 7 else length pkt_t_us - (index + 1) in
        ((j ≤ index) × (index < j + n)) ⊎ ((index + 1 ≤ j) × (j < index + 1 + m))
  around index j h r = ground arith

  search_around-Searched :
      (index : ℕ) → Searched pkt_t_us oneway (IsNear index) (search_around pkt_t_us oneway index)
  unfolding search_around
  search_around-Searched index =
      let n : ℕ = if ltb index 8 then index + 1 else 8 in
      let m : ℕ = if ltb (index + 8) (length pkt_t_us) then 7 else length pkt_t_us - (index + 1) in
      or_else-Searched (search_back pkt_t_us oneway n index)
        (search_on pkt_t_us oneway m (index + 1))
        (λ j r s. around index j (is_burst_start-lt j s) r) (λ j p. ground arith)
        (λ j q. ground arith) (search_back-Searched n index (ground arith))
        (search_on-Searched m (index + 1))

  found_or-eq :
      {P : ℕ → Type 0} (o : Option ℕ) (z : ℤ)
      → Searched pkt_t_us oneway P o
      → ((j : ℕ) × (found_or o z ≡ pos j) × P j × (is_burst_start pkt_t_us oneway j ≡ true))
        ⊎ (((j : ℕ) → P j → is_burst_start pkt_t_us oneway j ≡ false) × (found_or o z ≡ z))
  unfolding found_or
  found_or-eq _ z (at_start j p s) = inl (j, refl, p, s)
  found_or-eq _ z (no_start f) = inr (f, refl)

  -- The search returns the index of a packet that begins a burst and is at most 7 places away from
  -- the packet nearest in time to the retransmission; only when none of these packets begins a
  -- burst does it fall back, to that nearest packet, or to -1 if the last packet is less than 10 ms
  -- away from the retransmission.
  pub find_burst_start_cases :
      (dci_retx_t_us : ℕ)
      → let index = nearest_neighbour_index pkt_t_us dci_retx_t_us in
        let result = find_burst_start pkt_t_us oneway dci_retx_t_us in
        ((j : ℕ) × (result ≡ pos j) × IsNear index j × (is_burst_start pkt_t_us oneway j ≡ true))
        ⊎ (((j : ℕ) → IsNear index j → is_burst_start pkt_t_us oneway j ≡ false)
            × (result ≡ (
                if ltb
                  (abs (as_long (sub64 dci_retx_t_us (get_or pkt_t_us (length pkt_t_us - 1) 0))))
                  10000
                then negsuc 0
                else pos index)))
  unfolding find_burst_start
  find_burst_start_cases dci_retx_t_us =
      let index : ℕ = nearest_neighbour_index pkt_t_us dci_retx_t_us in
      found_or-eq (search_around pkt_t_us oneway index) _ (search_around-Searched index)
