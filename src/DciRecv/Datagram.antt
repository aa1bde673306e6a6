-- ===== src/DciRecv/Datagram.antt =====
-- A datagram of several messages, written by the encoder, and what the loop over it does.
use copa_new.Prelude.{
  ℕ, zero, suc, ◌+◌, ◌≤◌, ◌<◌, ◌≡◌, ◌≢◌, refl, sym, ap, ◌∙◌, List, [], ◌∷◌, ◌++◌, Bool, false,
  Option, none, some, ◌==◌, if◌then◌else◌, length, length-append, All, ne→==, eq→==, arith,
}
use mathlib.Core.Option.{some-injective}
use copa_new.Prelude.Word.{IsU32, IsU64}
use copa_new.Dci.{UeDci, DciCa}
use copa_new.DciRecv.{
  RecvState, ok, dci, Drained, drained, crashed, finish_dci, store_counts, all_bytes, preamble_at,
  check_moved, store_dci, store_decoded, recv_one_dci, dispatch, recv_buffer, after_message, drain,
}
use copa_new.DciRecv.RoundTrip.{
  HasBytes, HasBytes-append, message_bytes, received, decode_dci-message_bytes,
}

-- A message as it is sent: with a downlink part, with an uplink part, the message and its cell.
pub record Sent : Type 0 where
  pub dl : Bool
  pub ul : Bool
  pub message : UeDci
  pub cell_idx : ℕ

-- The fields fit the places that they have in the message.
pub record IsSent (m : Sent) : Type 0 where
  pub time : IsU64 m.message.time_stamp
  pub dl_tbs : IsU32 m.message.dl_tbs
  pub ul_tbs : IsU32 m.message.ul_tbs

abbrev pub sent_bytes : Sent → List ℕ
sent_bytes m = message_bytes m.dl m.ul m.message m.cell_idx

abbrev pub preamble_bytes : List ℕ
preamble_bytes = 0xAA ∷ 0xAA ∷ 0xAA ∷ 0xAA ∷ []

pub datagram : List Sent → List ℕ
datagram [] = []
datagram (m ∷ ms) = preamble_bytes ++ (sent_bytes m ++ datagram ms)

preamble_at-bytes :
    (buf : List ℕ) (i : ℕ) → HasBytes buf i preamble_bytes → preamble_at buf i ≡ ok dci
unfolding preamble_at all_bytes
preamble_at-bytes buf i (a, (b, (c, (d, u)))) = rw (a, b, c, d)

store_counts-go_exit :
    (dl ul : Option (List ℕ)) (ca : Option DciCa) (st : RecvState) {st' : RecvState}
    → store_counts dl ul ca st ≡ some st'
    → st'.go_exit ≡ st.go_exit
unfolding store_counts
store_counts-go_exit none ul ca st e = cc
store_counts-go_exit (some dl) none ca st e = cc
store_counts-go_exit (some dl) (some ul) none st e = cc
store_counts-go_exit (some dl) (some ul) (some ca) st e =
    ap RecvState.go_exit (sym (some-injective _ _ e))

if_stored : Option RecvState → (RecvState → Drained) → Drained
if_stored none next = crashed
if_stored (some st) next = next st

check_moved-finish_dci :
    (j r : ℕ) (o : Option RecvState) → r ≢ j → check_moved j (finish_dci o r) ≡ finish_dci o r
unfolding check_moved finish_dci
check_moved-finish_dci j r none h = refl
check_moved-finish_dci j r (some st) h = rw (ne→== r j h)

after_message-finish_dci :
    (len r : ℕ) (next : RecvState → ℕ → Drained) (rest : RecvState → Drained) (o : Option RecvState)
    → ((st : RecvState) → o ≡ some st → (if r == len then drained st else next st r) ≡ rest st)
    → after_message len next (finish_dci o r) ≡ if_stored o rest
unfolding after_message finish_dci if_stored
after_message-finish_dci len r next rest none h = refl
after_message-finish_dci len r next rest (some st) h = h st refl

module _ (wild : UeDci) where
  -- Each message of a datagram is stored, in the order in which they were sent.
  pub store_all : List Sent → RecvState → Drained
  store_all [] st = drained st
  store_all (m ∷ ms) st =
      if_stored (store_dci wild (received m.dl m.ul m.message) m.cell_idx st) (store_all ms)

  store_dci-go_exit :
      (d : UeDci) (cell_idx : ℕ) (st : RecvState) {st' : RecvState}
      → store_dci wild d cell_idx st ≡ some st'
      → st'.go_exit ≡ st.go_exit
  unfolding store_dci
  store_dci-go_exit d cell_idx st e = store_counts-go_exit _ _ _ st e

  recv_buffer-sent_bytes :
      (m : Sent) (st : RecvState) (buf : List ℕ) (i len : ℕ)
      → IsSent m
      → i + 4 + length (sent_bytes m) ≤ len
      → HasBytes buf i preamble_bytes
      → HasBytes buf (i + 4) (sent_bytes m)
      → recv_buffer wild st buf i len
        ≡ finish_dci
            (store_dci wild (received m.dl m.ul m.message) m.cell_idx st)
            (i + 4 + length (sent_bytes m))
  unfolding recv_buffer dispatch recv_one_dci store_decoded
  recv_buffer-sent_bytes m st buf i len v le p b =
      let decoded =
        decode_dci-message_bytes m.dl m.ul m.message m.cell_idx buf (i + 4) len v.time v.dl_tbs
          v.ul_tbs le b in
      ap (λ k. dispatch wild k st buf i len) (preamble_at-bytes buf i p)
      ∙ ap (λ k. check_moved (i + 4) (store_decoded wild k st)) decoded
      ∙ check_moved-finish_dci (i + 4) (i + 4 + length (sent_bytes m))
          (store_dci wild (received m.dl m.ul m.message) m.cell_idx st) (omega arith)

  -- One round of the loop, on a message with its preamble.
  drain-sent_bytes :
      (fuel : ℕ) (m : Sent) (st : RecvState) (buf : List ℕ) (i len : ℕ) (rest : RecvState → Drained)
      → st.go_exit ≡ false
      → IsSent m
      → i + 4 + length (sent_bytes m) ≤ len
      → HasBytes buf i preamble_bytes × HasBytes buf (i + 4) (sent_bytes m)
      → (let r = i + 4 + length (sent_bytes m) in
          (st' : RecvState)
          → st'.go_exit ≡ false
          → (if r == len then drained st' else drain wild fuel st' buf r len) ≡ rest st')
      → drain wild (suc fuel) st buf i len
        ≡ if_stored (store_dci wild (received m.dl m.ul m.message) m.cell_idx st) rest
  unfolding drain
  drain-sent_bytes fuel m st buf i len rest go v le (p, b) onward =
      let next : RecvState → ℕ → Drained = λ st' k. drain wild fuel st' buf k len in
      ap (λ c. if c then drained st else after_message len next (recv_buffer wild st buf i len)) go
      ∙ ap (after_message len next) (recv_buffer-sent_bytes m st buf i len v le p b)
      ∙ after_message-finish_dci len (i + 4 + length (sent_bytes m)) next rest
          (store_dci wild (received m.dl m.ul m.message) m.cell_idx st)
          λ st' stored.
            onward st' (store_dci-go_exit (received m.dl m.ul m.message) m.cell_idx st stored ∙ go)

  -- A datagram of one or more messages that were encoded is decoded completely: with a round for
  -- each message, the loop stores what is transmitted of each, in the order in which they were
  -- sent, and ends at the last one; a message for a cell that does not exist crashes it.
  pub drain-datagram :
      (fuel : ℕ) (m : Sent) (ms : List Sent) (st : RecvState) (buf : List ℕ) (i len : ℕ)
      → st.go_exit ≡ false
      → All IsSent (m ∷ ms)
      → i + length (datagram (m ∷ ms)) ≡ len
      → HasBytes buf i (datagram (m ∷ ms))
      → length ms < fuel
      → drain wild fuel st buf i len ≡ store_all (m ∷ ms) st
  unfolding datagram store_all
  drain-datagram zero m ms st buf i len go v e b h = absurd (omega arith)
  drain-datagram (suc fuel) m [] st buf i len go v e b h =
      let r : ℕ = i + 4 + length (sent_bytes m) in
      let size = length-append (sent_bytes m) [] in
      let (p, q) = HasBytes-append buf i (i + 4) preamble_bytes (sent_bytes m ++ []) b refl in
      let (x, y) = HasBytes-append buf (i + 4) r (sent_bytes m) [] q refl in
      drain-sent_bytes fuel m st buf i len drained go v.0 (omega arith) (p, x)
        λ st' go'. rw (eq→== r len (omega arith))
  drain-datagram (suc fuel) m (n ∷ ns) st buf i len go v e b h =
      let r : ℕ = i + 4 + length (sent_bytes m) in
      let others : List ℕ = datagram (n ∷ ns) in
      let size = length-append (sent_bytes m) others in
      let (p, q) = HasBytes-append buf i (i + 4) preamble_bytes (sent_bytes m ++ others) b refl in
      let (x, y) = HasBytes-append buf (i + 4) r (sent_bytes m) others q refl in
      drain-sent_bytes fuel m st buf i len (store_all (n ∷ ns)) go v.0 (omega arith) (p, x)
        λ st' go'.
          rw (ne→== r len (λ w. omega arith))
            (drain-datagram fuel n ns st' buf r len go' v.1 (omega arith) y (omega arith))
