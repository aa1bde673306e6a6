-- ===== src/Dci/Ring.antt =====
-- The ring buffer of one cell refines the list of the last 1000 messages.
use copa_new.Prelude.{
  ℕ, suc, ◌+◌, ◌-◌, ◌%◌, ◌≤◌, ◌<◌, ◌≡◌, refl, sym, ap, ap₂, ◌∙◌, inl, inr, List, [], ◌∷◌, ◌++◌,
  append-nil, append_assoc, ltb, if◌then◌else◌, length, length-append, length-set, length-take,
  length-drop, length-replicate, set, take, drop, last, take-all, drop-all, take-set, drop-set,
  drop-append, drop-drop, lt_or_le, lt→ltb, le→ltb, arith,
}
use native.Mathlib.Nat.{mod-eq_of_lt}
use copa_new.Dci.{DciCell, UeDci, nof_log_dci, zero_ue_dci, cell_init, cell_insert}

module _ (cap : ℕ) where
  abbrev pub next_header : ℕ → ℕ
  next_header header = (header + 1) % cap

  abbrev pub next_nof : ℕ → ℕ
  next_nof nof = if ltb nof cap then nof + 1 else nof

  next_header_in : (h : ℕ) → h + 1 < cap → next_header h ≡ suc h
  next_header_in h lt = mod-eq_of_lt lt ∙ omega arith

  next_header_wraps : (h : ℕ) → h + 1 ≡ cap → next_header h ≡ 0
  next_header_wraps h e = rw e (grind arith)

-- The representation of a ring of the last `cap` elements: the fill count and the next write.
module _ {ℓ} {A : Type ℓ} (cap : ℕ) where
  abbrev pub window : ℕ → ℕ → List A → List A
  window header nof buf = if ltb nof cap then take nof buf else drop header buf ++ take header buf

  pub record IsRing (header nof : ℕ) (buf : List A) : Type 0 where
    pub size : length buf ≡ cap
    pub header_in : header < cap
    pub nof_in : nof ≤ cap
    pub filling : nof < cap → header ≡ nof

  step-IsRing :
      {h n : ℕ} {buf : List A} (v : A)
      → IsRing h n buf
      → IsRing (next_header cap h) (next_nof cap n) (set buf h v)
  step-IsRing {h} {n} {buf} v r = elim (lt_or_le (h + 1) cap) [
    | inl lt ↦ ground (arith, length-set buf h v, next_header_in cap h lt, r.filling)
    | inr ge ↦
        ground (
          arith,
          length-set buf h v,
          next_header_wraps cap h (omega (arith, r.header_in)),
          r.filling,
        )
  ]

  -- A write in place of the last free element.
  written_full :
      (h : ℕ) (buf : List A) (v : A) → suc h ≡ length buf → set buf h v ≡ take h buf ++ (v ∷ [])
  written_full h buf v e =
      sym (take-all (suc h) (set buf h v) (omega (arith, length-set buf h v)))
      ∙ take-set buf h v (omega arith)

  last_of_short : (xs : List A) → length xs ≤ cap → last cap xs ≡ xs
  last_of_short xs h = let e : length xs - cap ≡ 0 = omega arith in rw e

  window_full : (h n : ℕ) (buf : List A) → cap ≤ n → window h n buf ≡ drop h buf ++ take h buf
  window_full h n buf le = rw (le→ltb n cap le)

  window_part : (h n : ℕ) (buf : List A) → n < cap → window h n buf ≡ take n buf
  window_part h n buf lt = rw (lt→ltb n cap lt)

  -- While the ring fills, a write appends.
  step_filling :
      {h n : ℕ} {buf : List A} (v : A)
      → IsRing h n buf
      → n < cap
      → window (next_header cap h) (next_nof cap n) (set buf h v) ≡ take n buf ++ (v ∷ [])
  step_filling {h} {n} {buf} v r lt =
      let e : h ≡ n = r.filling lt in
      let en : next_nof cap n ≡ suc n = rw (lt→ltb n cap lt) (omega arith) in
      elim (lt_or_le (n + 1) cap) [
        | inl more ↦
            rw (e, en)
              (window_part _ (suc n) _ (omega arith) ∙ take-set buf n v (omega (arith, r.size)))
        | inr last_one ↦
            rw (e, en)
              (window_full _ (suc n) _ (omega arith)
                ∙ rw (next_header_wraps cap n (omega arith))
                    (append-nil _ ∙ written_full n buf v (omega (arith, r.size))))
      ]

  -- When it is full, a write drops the oldest element.
  step_full :
      {h n : ℕ} {buf : List A} (v : A)
      → IsRing h n buf
      → cap ≤ n
      → window (next_header cap h) (next_nof cap n) (set buf h v)
        ≡ drop (suc h) buf ++ (take h buf ++ (v ∷ []))
  step_full {h} {n} {buf} v r le =
      let en : next_nof cap n ≡ n = rw (le→ltb n cap le) in
      elim (lt_or_le (h + 1) cap) [
        | inl more ↦
            rw (en, next_header_in cap h more)
              (window_full (suc h) n _ le
                ∙ ap₂ ◌++◌ (drop-set buf h v)
                    (take-set buf h v (omega (arith, r.size, r.header_in))))
        | inr last_one ↦
            let full : suc h ≡ cap = omega (arith, r.header_in) in
            rw (en, next_header_wraps cap h (omega arith))
              (window_full 0 n _ le
                ∙ append-nil _
                ∙ written_full h buf v (full ∙ sym r.size)
                ∙ rw (drop-all (suc h) buf (omega (arith, r.size))))
      ]

  -- A write to the ring leaves the last `cap` elements of what it held and the new one.
  pub window_step :
      {h n : ℕ} {buf : List A} (v : A)
      → IsRing h n buf
      → window (next_header cap h) (next_nof cap n) (set buf h v)
        ≡ last cap (window h n buf ++ (v ∷ []))
  window_step {h} {n} {buf} v r = elim (lt_or_le n cap) [
    | inl lt ↦
        step_filling v r lt
        ∙ sym (
            rw (window_part h n buf lt) (
              last_of_short (take n buf ++ (v ∷ []))
                (omega (arith, length-append (take n buf) (v ∷ []), length-take n buf))))
    | inr ge ↦ step_full v r ge ∙ sym (rw (window_full h n buf ge) (drop_oldest v r))
  ]
    where
      drop_oldest :
          {h : ℕ} {buf : List A} (v : A)
          → IsRing h n buf
          → last cap ((drop h buf ++ take h buf) ++ (v ∷ []))
            ≡ drop (suc h) buf ++ (take h buf ++ (v ∷ []))
      drop_oldest {h} {buf} v r =
          let one : length ((drop h buf ++ take h buf) ++ (v ∷ [])) - cap ≡ 1 = omega (
            arith,
            length-append (drop h buf ++ take h buf) (v ∷ []),
            length-append (drop h buf) (take h buf),
            length-take h buf,
            length-drop h buf,
            r.size,
            r.header_in,
          ) in
          rw (one, append_assoc (drop h buf) (take h buf) (v ∷ []))
            (drop-append 1 (drop h buf) _ (omega (arith, length-drop h buf, r.size, r.header_in))
              ∙ (let e : h + 1 ≡ suc h = omega arith in
                  ap (λ xs. xs ++ (take h buf ++ (v ∷ [])))
                    (drop-drop 1 h buf ∙ ap (λ k. drop k buf) e)))

module _ {ℓ} {A : Type ℓ} (cap : ℕ) where
  pub length-window :
      {h n : ℕ} {buf : List A} → IsRing cap h n buf → length (window cap h n buf) ≤ cap
  length-window {h} {n} {buf} r = elim (lt_or_le n cap) [
    | inl lt ↦ rw (window_part cap h n buf lt) (omega (arith, length-take n buf))
    | inr ge ↦ rw (window_full cap h n buf ge) (
        omega (
          arith,
          length-append (drop h buf) (take h buf),
          length-take h buf,
          length-drop h buf,
          r.size,
          r.header_in,
        ))
  ]

last-last-append {ℓ} :
    {A : Type ℓ} (cap : ℕ) (xs ys : List A) → last cap (last cap xs ++ ys) ≡ last cap (xs ++ ys)
last-last-append cap xs ys = elim (lt_or_le cap (length xs)) [
  | inl long ↦
      let n : ℕ = length xs - cap in
      let e : length (drop n xs ++ ys) - cap ≡ length ys =
        omega (arith, length-append (drop n xs) ys, length-drop n xs) in
      let total : n + length ys ≡ length (xs ++ ys) - cap = omega (arith, length-append xs ys) in
      ap (λ k. drop k (drop n xs ++ ys)) e
      ∙ ap (drop (length ys)) (sym (drop-append n xs ys (omega arith)))
      ∙ drop-drop (length ys) n (xs ++ ys)
      ∙ ap (λ k. drop k (xs ++ ys)) total
  | inr short ↦ ap (λ zs. last cap (zs ++ ys)) (last_of_short cap xs short)
]

-- The counters of a cell's ring are consistent.
abbrev pub CellIsValid : DciCell → Type 0
CellIsValid c = IsRing nof_log_dci c.header c.nof_logged_dci c.dci

-- The messages that a cell holds, oldest first.
abbrev pub contents : DciCell → List UeDci
contents c = window nof_log_dci c.header c.nof_logged_dci c.dci

pub cell_insert-CellIsValid :
    (c : DciCell) (d : UeDci) → CellIsValid c → CellIsValid (cell_insert c d)
unfolding cell_insert
cell_insert-CellIsValid c d v = step-IsRing nof_log_dci d v

contents-cell_insert :
    (c : DciCell) (d : UeDci)
    → CellIsValid c
    → contents (cell_insert c d) ≡ last nof_log_dci (contents c ++ (d ∷ []))
unfolding cell_insert
contents-cell_insert c d v = window_step nof_log_dci d v

pub cell_init-CellIsValid : CellIsValid cell_init × (contents cell_init ≡ [])
unfolding cell_init
cell_init-CellIsValid = (
  record {
    size = length-replicate nof_log_dci zero_ue_dci;
    header_in = omega arith;
    nof_in = omega arith;
    filling = λ h. refl;
  },
  refl,
)

-- The messages of one cell, inserted in order.
pub insert_all : DciCell → List UeDci → DciCell
insert_all c [] = c
insert_all c (d ∷ ds) = insert_all (cell_insert c d) ds

pub insert_all-CellIsValid :
    (ds : List UeDci) (c : DciCell) → CellIsValid c → CellIsValid (insert_all c ds)
unfolding insert_all
insert_all-CellIsValid [] c v = v
insert_all-CellIsValid (d ∷ ds) c v =
    insert_all-CellIsValid ds (cell_insert c d) (cell_insert-CellIsValid c d v)

-- After any messages a valid cell holds the last 1000 of what it held and the new ones, in order.
pub contents-insert_all :
    (ds : List UeDci) (c : DciCell)
    → CellIsValid c
    → contents (insert_all c ds) ≡ last nof_log_dci (contents c ++ ds)
unfolding insert_all
contents-insert_all [] c v = sym (
    rw (append-nil (contents c))
      (last_of_short nof_log_dci (contents c) (length-window nof_log_dci v)))
contents-insert_all (d ∷ ds) c v =
    contents-insert_all ds (cell_insert c d) (cell_insert-CellIsValid c d v)
    ∙ ap (λ xs. last nof_log_dci (xs ++ ds)) (contents-cell_insert c d v)
    ∙ last-last-append nof_log_dci (contents c ++ (d ∷ [])) ds
    ∙ ap (last nof_log_dci) (append_assoc (contents c) (d ∷ []) ds)

-- A new cell holds the last 1000 of the messages inserted, in order.
pub contents-insert_all_new :
    (ds : List UeDci) → contents (insert_all cell_init ds) ≡ last nof_log_dci ds
contents-insert_all_new ds =
    contents-insert_all ds cell_init cell_init-CellIsValid.0
    ∙ ap (λ xs. last nof_log_dci (xs ++ ds)) cell_init-CellIsValid.1
