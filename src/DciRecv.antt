-- ===== src/DciRecv.antt =====
-- ngscope_dci_recv.cc, lines 27-263: the messages that arrive over the network are decoded and put
-- into the rings. A buffer is the list of all the bytes of the receiving array, also those behind the
-- `recvLen` received ones; a read or write outside an array is a fault.
pub mod Progress
pub mod RoundTrip
pub mod Datagram
mod Runs
use copa_new.Prelude.{
  ℕ, zero, suc, ◌+◌, ◌*◌, ◌/◌, ◌%◌, ◌^◌, List, [], ◌∷◌, Bool, true, false, not, Option, none, some,
  ltb, leb, ◌==◌, if◌then◌else◌, length, get_elem?, get_or, set,
}
use copa_new.Dci.{UeDci, DciCell, DciCa, zero_ue_dci, ca_insert, max_nof_rf_dev}

-- The result of decoding: a value, the return value -1, or a fault.
pub data Decoded (A : Type 0) : Type 0 where
  ok : A → Decoded A
  reject : Decoded A
  fault : Decoded A

infixl 5 ◌>>=◌
abbrev pub ◌>>=◌ : {A B : Type 0} → Decoded A → (A → Decoded B) → Decoded B
ok a >>= f = f a
reject >>= f = reject
fault >>= f = fault

-- The globals that receiving changes.
pub record RecvState : Type 0 where
  pub dci_ca : DciCa
  pub go_exit : Bool
  pub nof_dl_retx_per_cell : List ℕ
  pub nof_ul_retx_per_cell : List ℕ

of_read : Option ℕ → Decoded ℕ
of_read none = fault
of_read (some b) = ok b

pub byte_at : List ℕ → ℕ → Decoded ℕ
unfolding of_read
byte_at buf i = of_read (get_elem? buf i)

-- `memcpy` of a uint32_t and `ntohl`.
pub be32_at : List ℕ → ℕ → Decoded ℕ
be32_at buf i = do
  a ← byte_at buf i
  b ← byte_at buf (i + 1)
  c ← byte_at buf (i + 2)
  d ← byte_at buf (i + 3)
  ok (((a * 256 + b) * 256 + c) * 256 + d)

-- `memcpy` of a uint16_t, on a machine that stores its low byte first.
pub le16_at : List ℕ → ℕ → Decoded ℕ
le16_at buf i = do a ← byte_at buf i; b ← byte_at buf (i + 1); ok (a + 256 * b)

-- One direction of `recv_dci_ver1`: the retransmission flag and the transport block size.
recv_link : List ℕ → ℕ → ℕ → Decoded (ℕ × ℕ)
recv_link buf i recv_len =
    let read : Decoded (ℕ × ℕ) = do retx ← byte_at buf i; tbs ← be32_at buf (i + 1); ok (retx, tbs)
    in if leb recv_len (i + 4) then reject else read

recv_dl : Bool → UeDci → List ℕ → ℕ → ℕ → Decoded (UeDci × ℕ)
recv_dl false d buf i recv_len = ok (d, i)
recv_dl true d buf i recv_len = do
  (retx, tbs) ← recv_link buf i recv_len
  ok (record d { dl_retx = retx; dl_tbs = tbs }, i + 5)

recv_ul : Bool → UeDci → List ℕ → ℕ → ℕ → Decoded (UeDci × ℕ)
recv_ul false d buf i recv_len = ok (d, i)
recv_ul true d buf i recv_len = do
  (retx, tbs) ← recv_link buf i recv_len
  ok (record d { ul_retx = retx; ul_tbs = tbs }, i + 5)

-- `ul_dl & 0x01` and `ul_dl & 0x02` are the two low bits.
pub recv_dci_ver1 : UeDci → List ℕ → ℕ → ℕ → Decoded (UeDci × ℕ)
recv_dci_ver1 d buf i recv_len =
    let body : Decoded (UeDci × ℕ) = do
      ul_dl ← byte_at buf i
      (d₁, i₁) ← recv_dl (ul_dl % 2 == 1) d buf (i + 1) recv_len
      recv_ul (ul_dl / 2 % 2 == 1) d₁ buf i₁ recv_len
    in if leb recv_len i then reject else body

-- `recv_one_dci` up to the end of its switch: the message, its cell and the index behind it. A
-- message of an unknown version ends with its preamble.
pub decode_dci : List ℕ → ℕ → ℕ → Decoded (UeDci × ℕ × ℕ)
decode_dci buf i recv_len =
    let body : Decoded (UeDci × ℕ × ℕ) = do
      proto_v ← byte_at buf i
      lower_t ← be32_at buf (i + 1)
      upper_t ← be32_at buf (i + 5)
      tti ← le16_at buf (i + 9)
      cell_idx ← byte_at buf (i + 11)
      let d : UeDci = record zero_ue_dci { time_stamp = lower_t + upper_t * 2 ^ 32; tti = tti }
      (d', i') ← if proto_v == 0 then recv_dci_ver1 d buf (i + 12) recv_len else ok (d, i + 12)
      ok (d', cell_idx, i')
    in if leb recv_len (i + 11) then reject else body

-- `nof_reTx_per_cell[cell_idx]++` for a retransmission.
count_retx : ℕ → List ℕ → ℕ → Option (List ℕ)
count_retx retx counts cell_idx =
    if retx == 0
    then some counts
    else if leb (length counts) cell_idx
    then none
    else some (set counts cell_idx (get_or counts cell_idx 0 + 1))

-- The outcome of a receiving function: `none` is a fault, and `some (none, st)` the value -1.
abbrev pub Outcome : Type 0
Outcome = Option (Option ℕ × RecvState)

finish_dci : Option RecvState → ℕ → Outcome
finish_dci none i = none
finish_dci (some st) i = some (some i, st)

store_counts : Option (List ℕ) → Option (List ℕ) → Option DciCa → RecvState → Option RecvState
store_counts (some dl) (some ul) (some ca) st =
    some (record st { dci_ca = ca; nof_dl_retx_per_cell = dl; nof_ul_retx_per_cell = ul })
store_counts _ _ _ st = none

-- The loop of `recv_config` that fills `cell_prb`, with the places left in that array.
read_prbs : List ℕ → ℕ → ℕ → ℕ → Decoded (List ℕ)
read_prbs buf zero room i = ok []
read_prbs buf (suc n) zero i = fault
read_prbs buf (suc n) (suc room) i = do
  prb ← le16_at buf i
  prbs ← read_prbs buf n room (i + 2)
  ok (prb ∷ prbs)

set_prbs : List ℕ → List DciCell → List DciCell
set_prbs [] cells = cells
set_prbs (prb ∷ prbs) [] = []
set_prbs (prb ∷ prbs) (c ∷ cells) = record c { cell_prb = prb } ∷ set_prbs prbs cells

store_config : Decoded (ℕ × List ℕ) → ℕ → RecvState → Outcome
store_config (ok (nof_cell, prbs)) i st =
    let ca = st.dci_ca in
    some (
      some (i + 1 + 2 * nof_cell),
      record st {
        dci_ca = record ca { nof_cell = nof_cell; cell_dci = set_prbs prbs ca.cell_dci };
      },
    )
store_config reject i st = some (none, st)
store_config fault i st = none

-- It is not told how many bytes were received.
pub recv_config : RecvState → List ℕ → ℕ → Outcome
recv_config st buf i =
    let read : Decoded (ℕ × List ℕ) = do
      nof_cell ← byte_at buf i
      prbs ← read_prbs buf nof_cell max_nof_rf_dev (i + 1)
      ok (nof_cell, prbs)
    in store_config read i st

-- Whether `n` bytes from `i` on are all `b`; a byte is read only if those before it are.
all_bytes : ℕ → ℕ → List ℕ → ℕ → Decoded Bool
all_bytes b zero buf i = ok true
all_bytes b (suc n) buf i = do
  x ← byte_at buf i
  let rest : Decoded Bool = all_bytes b n buf (i + 1)
  if x == b then rest else ok false

pub data Preamble : Type 0 where
  dci config exit unknown : Preamble

preamble_at : List ℕ → ℕ → Decoded Preamble
preamble_at buf i = do
  a ← all_bytes 0xAA 4 buf i
  b ← all_bytes 0xBB 4 buf i
  f ← all_bytes 0xFF 4 buf i
  ok (if a then dci else if b then config else if f then exit else unknown)

-- `recv_one_dci` that has not moved on counts as a failure.
check_moved : ℕ → Outcome → Outcome
check_moved i none = none
check_moved i (some (none, st)) = some (none, st)
check_moved i (some (some r, st)) = if r == i then some (none, st) else some (some r, st)

-- How the loop over one datagram ends; `stuck` is a loop out of fuel.
pub data Drained : Type 0 where
  drained : RecvState → Drained
  crashed : Drained
  stuck : Drained

-- What the loop does with the result of `recv_buffer`; it goes on by `next`.
after_message : ℕ → (RecvState → ℕ → Drained) → Outcome → Drained
after_message recv_len next none = crashed
after_message recv_len next (some (none, st)) = drained st
after_message recv_len next (some (some r, st)) =
    let rest : Drained = next st r in if r == recv_len then drained st else rest

-- The value that a read of `dci[-1]` gives, as in `Dci`.
module _ (wild : UeDci) where
  -- The end of `recv_one_dci`: the counters and the insertion.
  pub store_dci : UeDci → ℕ → RecvState → Option RecvState
  store_dci d cell_idx st =
      store_counts (count_retx d.dl_retx st.nof_dl_retx_per_cell cell_idx)
        (count_retx d.ul_retx st.nof_ul_retx_per_cell cell_idx)
        (ca_insert wild st.dci_ca d cell_idx) st

  store_decoded : Decoded (UeDci × ℕ × ℕ) → RecvState → Outcome
  store_decoded fault st = none
  store_decoded reject st = some (none, st)
  store_decoded (ok (d, cell_idx, i)) st = finish_dci (store_dci d cell_idx st) i

  pub recv_one_dci : RecvState → List ℕ → ℕ → ℕ → Outcome
  recv_one_dci st buf i recv_len = store_decoded (decode_dci buf i recv_len) st

  dispatch : Decoded Preamble → RecvState → List ℕ → ℕ → ℕ → Outcome
  dispatch (ok dci) st buf i recv_len = check_moved (i + 4) (recv_one_dci st buf (i + 4) recv_len)
  dispatch (ok config) st buf i recv_len = recv_config st buf (i + 4)
  dispatch (ok exit) st buf i recv_len = some (none, record st { go_exit = true })
  dispatch (ok unknown) st buf i recv_len = some (none, st)
  dispatch reject st buf i recv_len = some (none, st)
  dispatch fault st buf i recv_len = none

  pub recv_buffer : RecvState → List ℕ → ℕ → ℕ → Outcome
  recv_buffer st buf i recv_len = dispatch (preamble_at buf i) st buf i recv_len

  -- The inner loop of the receiving threads.
  pub drain : ℕ → RecvState → List ℕ → ℕ → ℕ → Drained
  drain zero st buf i recv_len = stuck
  drain (suc fuel) st buf i recv_len =
      let rest : Drained =
        after_message recv_len (λ st' r. drain fuel st' buf r recv_len)
          (recv_buffer st buf i recv_len) in
      if st.go_exit then drained st else rest
