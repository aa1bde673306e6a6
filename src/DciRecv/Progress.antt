-- ===== src/DciRecv/Progress.antt =====
-- The loop over one datagram ends: each message that is accepted takes bytes of the buffer.
use copa_new.Prelude.{
  ℕ, zero, suc, ◌+◌, ◌-◌, ◌*◌, ◌≤◌, ◌<◌, ◌≡◌, ◌≢◌, refl, List, [], ◌∷◌, Bool, true, false, Option,
  none, some, ◌==◌, if◌then◌else◌, length, get_elem?, arith,
}
use copa_new.Dci.{UeDci}
use copa_new.DciRecv.{
  RecvState, Decoded, ok, reject, fault, ◌>>=◌, Preamble, dci, config, exit, unknown, Drained,
  stuck, byte_at, of_read, recv_dl, recv_ul, recv_dci_ver1, decode_dci, Outcome, finish_dci,
  store_config, recv_config, all_bytes, preamble_at, check_moved, store_decoded, recv_one_dci,
  dispatch, recv_buffer, drain, after_message, store_dci,
}

get_elem?-lt {ℓ} :
    {A : Type ℓ} (xs : List A) (i : ℕ) {x : A} → get_elem? xs i ≡ some x → i < length xs
get_elem?-lt [] i e = cc
get_elem?-lt (x ∷ xs) zero e = omega arith
get_elem?-lt (x ∷ xs) (suc i) e = omega (arith, get_elem?-lt xs i e)

of_read-ok : (o : Option ℕ) {b : ℕ} → of_read o ≡ ok b → o ≡ some b
unfolding of_read
of_read-ok none e = cc
of_read-ok (some a) e = cc

byte_at-lt : (buf : List ℕ) (i : ℕ) {b : ℕ} → byte_at buf i ≡ ok b → i < length buf
unfolding byte_at
byte_at-lt buf i e = get_elem?-lt buf i (of_read-ok (get_elem? buf i) e)

recv_dl-le :
    (flag : Bool) (d : UeDci) (buf : List ℕ) (i len : ℕ) {p : UeDci × ℕ}
    → recv_dl flag d buf i len ≡ ok p
    → i ≤ p.1
unfolding recv_dl
recv_dl-le false d buf i len e = ground arith
recv_dl-le true d buf i len e = ground arith

recv_ul-le :
    (flag : Bool) (d : UeDci) (buf : List ℕ) (i len : ℕ) {p : UeDci × ℕ}
    → recv_ul flag d buf i len ≡ ok p
    → i ≤ p.1
unfolding recv_ul
recv_ul-le false d buf i len e = ground arith
recv_ul-le true d buf i len e = ground arith

recv_dci_ver1-le :
    (d : UeDci) (buf : List ℕ) (i len : ℕ) {p : UeDci × ℕ}
    → recv_dci_ver1 d buf i len ≡ ok p
    → i < p.1
unfolding recv_dci_ver1
recv_dci_ver1-le d buf i len e = grind (arith, recv_dl-le, recv_ul-le)

decode_dci-le :
    (buf : List ℕ) (i len : ℕ) {p : UeDci × ℕ × ℕ}
    → decode_dci buf i len ≡ ok p
    → (i + 12 ≤ p.2) × (i + 11 < len)
unfolding decode_dci
decode_dci-le buf i len e = grind (arith, recv_dci_ver1-le)

-- A chain that succeeds has a first step that does.
first_step :
    {A B : Type 0} (next : A → Decoded B) (m : Decoded A) {b : B}
    → (m >>= next) ≡ ok b
    → (a : A) × (m ≡ ok a)
first_step next fault e = cc
first_step next reject e = cc
first_step next (ok a) e = (a, refl)

all_bytes-lt :
    (b n : ℕ) (buf : List ℕ) (i : ℕ) {p : Bool} → all_bytes b (suc n) buf i ≡ ok p → i < length buf
unfolding all_bytes
all_bytes-lt b n buf i e = let (x, h) = first_step _ (byte_at buf i) e in byte_at-lt buf i h

preamble_at-lt : (buf : List ℕ) (i : ℕ) {p : Preamble} → preamble_at buf i ≡ ok p → i < length buf
unfolding preamble_at
preamble_at-lt buf i e =
    let (x, h) = first_step _ (all_bytes 0xAA 4 buf i) e in all_bytes-lt 0xAA 3 buf i h

store_config-lt :
    (m : Decoded (ℕ × List ℕ)) (i : ℕ) (st : RecvState) {r : ℕ} {st' : RecvState}
    → store_config m i st ≡ some (some r, st')
    → i < r
unfolding store_config
store_config-lt (ok (n, prbs)) i st {r} {st'} e = let h : i + 1 + 2 * n ≡ r = cc in omega arith
store_config-lt reject i st e = cc
store_config-lt fault i st e = cc

check_moved-eq :
    (j : ℕ) (o : Outcome) {r : ℕ} {st' : RecvState}
    → check_moved j o ≡ some (some r, st')
    → o ≡ some (some r, st')
unfolding check_moved
check_moved-eq j none e = cc
check_moved-eq j (some (none, st)) e = cc
check_moved-eq j (some (some r', st)) e = ground arith

finish_dci-eq :
    (o : Option RecvState) (i : ℕ) {r : ℕ} {st' : RecvState}
    → finish_dci o i ≡ some (some r, st')
    → i ≡ r
unfolding finish_dci
finish_dci-eq none i e = cc
finish_dci-eq (some st) i e = cc

if-ne-stuck : (b : Bool) {x y : Drained} → x ≢ stuck → y ≢ stuck → (if b then x else y) ≢ stuck
if-ne-stuck true h k = h
if-ne-stuck false h k = k

after_message-ne-stuck :
    (len : ℕ) (next : RecvState → ℕ → Drained) (o : Outcome)
    → ((st : RecvState) (r : ℕ) → o ≡ some (some r, st) → next st r ≢ stuck)
    → after_message len next o ≢ stuck
unfolding after_message
after_message-ne-stuck len next none h = λ e. cc
after_message-ne-stuck len next (some (none, st)) h = λ e. cc
after_message-ne-stuck len next (some (some r, st)) h =
    if-ne-stuck (r == len) (λ e. cc) (h st r refl)

module _ (wild : UeDci) where
  store_decoded-lt :
      (m : Decoded (UeDci × ℕ × ℕ)) (st : RecvState) (i : ℕ) {r : ℕ} {st' : RecvState}
      → ((p : UeDci × ℕ × ℕ) → m ≡ ok p → i < p.2)
      → store_decoded wild m st ≡ some (some r, st')
      → i < r
  unfolding store_decoded
  store_decoded-lt fault st i h e = cc
  store_decoded-lt reject st i h e = cc
  store_decoded-lt (ok (d, cell, j)) st i h e =
      omega (arith, h (d, cell, j) refl, finish_dci-eq (store_dci wild d cell st) j e)

  dispatch-lt :
      (o : Decoded Preamble) (st : RecvState) (buf : List ℕ) (i len : ℕ) {r : ℕ} {st' : RecvState}
      → dispatch wild o st buf i len ≡ some (some r, st')
      → i < r
  unfolding dispatch recv_one_dci recv_config
  dispatch-lt (ok dci) st buf i len e =
      store_decoded-lt (decode_dci buf (i + 4) len) st i
        (λ p h. omega (arith, decode_dci-le buf (i + 4) len h)) (check_moved-eq (i + 4) _ e)
  dispatch-lt (ok config) st buf i len e = omega (arith, store_config-lt _ (i + 4) st e)
  dispatch-lt (ok exit) st buf i len e = cc
  dispatch-lt (ok unknown) st buf i len e = cc
  dispatch-lt reject st buf i len e = cc
  dispatch-lt fault st buf i len e = cc

  dispatch-ok :
      (o : Decoded Preamble) (st : RecvState) (buf : List ℕ) (i len : ℕ) {r : ℕ} {st' : RecvState}
      → dispatch wild o st buf i len ≡ some (some r, st')
      → (p : Preamble) × (o ≡ ok p)
  unfolding dispatch
  dispatch-ok (ok p) st buf i len e = (p, refl)
  dispatch-ok reject st buf i len e = cc
  dispatch-ok fault st buf i len e = cc

  -- A message or configuration that `recv_buffer` accepts lies, with its first byte, inside the
  -- buffer, and the returned index is past that byte.
  recv_buffer-lt :
      (st : RecvState) (buf : List ℕ) (i len : ℕ) {r : ℕ} {st' : RecvState}
      → recv_buffer wild st buf i len ≡ some (some r, st')
      → (i < r) × (i < length buf)
  unfolding recv_buffer
  recv_buffer-lt st buf i len e =
      let (p, h) = dispatch-ok (preamble_at buf i) st buf i len e in
      (dispatch-lt (preamble_at buf i) st buf i len e, preamble_at-lt buf i h)

  -- With one more round than there are bytes in the buffer, the loop over a datagram ends, whatever
  -- the bytes are: it never runs out of fuel.
  pub drain-ne-stuck :
      (fuel : ℕ) (st : RecvState) (buf : List ℕ) (i len : ℕ)
      → length buf - i < fuel
      → drain wild fuel st buf i len ≢ stuck
  unfolding drain
  drain-ne-stuck zero st buf i len h = absurd (omega arith)
  drain-ne-stuck (suc fuel) st buf i len h =
      if-ne-stuck st.go_exit (λ e. cc)
        (after_message-ne-stuck len (λ st' r. drain wild fuel st' buf r len)
          (recv_buffer wild st buf i len)
          λ st' r o.
            let (moved, inside) = recv_buffer-lt st buf i len o in
            drain-ne-stuck fuel st' buf r len (omega arith))
