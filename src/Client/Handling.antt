-- ===== src/Client/Handling.antt =====
-- ngscope_client.cc, lines 149-288: the control messages are copied out of the rings when there is a
-- new retransmission, and the packets in the list are treated by them.
use copa_new.Prelude.{
  ℕ, zero, suc, ◌+◌, ◌*◌, List, [], ◌∷◌, Bool, true, not, ◌&&◌, ◌||◌, Option, none, some,
  if◌then◌else◌, get_elem?, get_or, leb, map, length, take, drop, ◌++◌,
}
use copa_new.Prelude.Int.{ℤ, pos, ◌-ℤ◌, ltb_ℤ, pos_part}
use copa_new.Tti.{tti_distance}
use copa_new.Sync.{sync_dci_pkt}
use copa_new.Dci.{DciCa, new_dl_retx, new_ul_retx, copy_dl_retx, copy_ul_retx}
use copa_new.Extract.{DciArrays, extract_multi_cell, sync_multi_cell, get_retx_t}
use copa_new.ReTx.{ReorderingBuf, reset_buf}
use copa_new.ReTx.Trace.{update_buf}
use copa_new.ReTx.BurstStart.{find_burst_start}
use copa_new.PacketList.{PacketNode, RetxPkts, list_length, get_retx, ave_oneway, revert_delay}

infixl 5 ◌>>=◌
abbrev pub ◌>>=◌ {ℓ κ} : {A : Type ℓ} {B : Type κ} → Option A → (A → Option B) → Option B
none >>= f = none
some a >>= f = f a

-- What `copy_dci_data_from_struct` sets.
pub record Copied : Type 0 where
  pub dci_all : List DciArrays
  pub recent_dl_retx_us : List ℕ
  pub recent_ul_retx_us : List ℕ
  pub new_dl_retx_v : Bool
  pub new_ul_retx_v : Bool
  pub nof_cell : ℕ

-- The arrays of the cells, if they are to be copied; those of further cells stay.
unfoldable pub extract_if : Bool → DciCa → List DciArrays → Option (List DciArrays)
extract_if b q dci_all =
    let copied = extract_multi_cell q >>= (λ arrays. some (arrays ++ drop q.nof_cell dci_all)) in
    if b then copied else some dci_all

unfoldable pub copy_dl_if : Bool → DciCa → List ℕ → Option (List ℕ)
copy_dl_if b q seen = if b then copy_dl_retx q seen else some seen

unfoldable pub copy_ul_if : Bool → DciCa → List ℕ → Option (List ℕ)
copy_ul_if b q seen = if b then copy_ul_retx q seen else some seen

abbrev pub copied : ℕ → Bool → Bool → List DciArrays → List ℕ → List ℕ → Copied
copied nof_cell new_dl new_ul arrays dl ul = record {
  dci_all = arrays;
  recent_dl_retx_us = dl;
  recent_ul_retx_us = ul;
  new_dl_retx_v = new_dl;
  new_ul_retx_v = new_ul;
  nof_cell = nof_cell;
}

unfoldable pub finish_copy :
    ℕ
    → Bool
    → Bool
    → Option (List DciArrays)
    → Option (List ℕ)
    → Option (List ℕ)
    → Option (Bool × Copied)
finish_copy nof_cell new_dl new_ul none dl ul = none
finish_copy nof_cell new_dl new_ul (some arrays) none ul = none
finish_copy nof_cell new_dl new_ul (some arrays) (some dl) none = none
finish_copy nof_cell new_dl new_ul (some arrays) (some dl) (some ul) =
    some (new_dl || new_ul, copied nof_cell new_dl new_ul arrays dl ul)

-- After the two tests.
unfoldable pub copy_new :
    DciCa
    → List DciArrays
    → Option (Bool × List ℕ)
    → Option (Bool × List ℕ)
    → Option (Bool × Copied)
copy_new q dci_all none ul = none
copy_new q dci_all (some dl) none = none
copy_new q dci_all (some (new_dl, dl)) (some (new_ul, ul)) =
    finish_copy q.nof_cell new_dl new_ul (extract_if (new_dl || new_ul) q dci_all)
      (copy_dl_if new_dl q dl) (copy_ul_if new_ul q ul)

-- The value that is returned, and what is set; the lock is held throughout.
unfoldable pub copy_dci_data_from_struct :
    DciCa → List DciArrays → List ℕ → List ℕ → Option (Bool × Copied)
copy_dci_data_from_struct q dci_all recent_dl_retx_us recent_ul_retx_us =
    copy_new q dci_all (new_dl_retx q recent_dl_retx_us) (new_ul_retx q recent_ul_retx_us)

-- The candidates for the clock offset: -10000 to 10000, by 100. OFFSET_SIZE is 201.
pub offsets_from : ℕ → ℕ → List ℤ
offsets_from i zero = []
offsets_from i (suc n) = (pos (i * 100) -ℤ pos 10000) ∷ offsets_from (i + 1) n

pub offset_vec : List ℤ
offset_vec = offsets_from 0 201

-- The arrays that a loop up to `nof_cell` visits; `none` is an access past the array.
pub arrays_in_use : ℕ → List DciArrays → Option (List DciArrays)
arrays_in_use nof_cell dci_all =
    if leb nof_cell (length dci_all) then some (take nof_cell dci_all) else none

-- The state that `pkt_handling` changes: its arguments and the variables of the file.
pub record Handling : Type 0 where
  pub pkt_list : List PacketNode
  pub dci_all : List DciArrays
  pub retx_buffer : ReorderingBuf
  pub found_retx : Bool
  pub missing_dl : Bool
  pub stat_miss_retx : ℕ

-- The packets of the list as arrays; a null head is not met.
pub packets : List PacketNode → Option RetxPkts
packets pkt_list = get_retx pkt_list (list_length pkt_list) >>= λ r. r

-- The buffer is updated for a new retransmission, or again if one was missed.
pub set_retx : Handling → Bool × ReorderingBuf → Handling
set_retx h (found, q) = record h { retx_buffer = q; found_retx = found; missing_dl = not found }

pub update_retx : Handling → Bool → ℕ → Option Handling
update_retx h new_dl nof_cell =
    let q : ReorderingBuf = h.retx_buffer in
    let updated : Option Handling =
      arrays_in_use nof_cell h.dci_all
      >>= (λ cells. update_buf q cells >>= (λ r. some (set_retx h r))) in
    if new_dl || (h.missing_dl && q.ready && not q.buffer_active) then updated else some h

-- The search for the first packet of the burst, which is given up 20 subframes after its start.
pub start_found : Handling → List ℕ → List ℕ → ℕ → Option Handling
start_found h pkt_rx_t_us pkt_oneway_us index = ave_oneway pkt_oneway_us index 5 >>= λ oneway.
    some (record h {
      retx_buffer = record h.retx_buffer {
        start_pkt_found = true;
        start_pkt_t = get_or pkt_rx_t_us index 0;
        ref_oneway = oneway;
      };
    })

pub start_missed : Handling → Option Handling
start_missed h = get_elem? h.dci_all 0 >>= λ cell. some (
    if ltb_ℤ (pos 20) (tti_distance h.retx_buffer.buf_start_tti cell.ca_header)
    then record h { retx_buffer = reset_buf h.retx_buffer; stat_miss_retx = h.stat_miss_retx + 1 }
    else h)

pub find_start : Handling → List ℕ → List ℕ → Option Handling
find_start h pkt_rx_t_us pkt_oneway_us =
    let q : ReorderingBuf = h.retx_buffer in
    let index : ℤ = find_burst_start pkt_rx_t_us pkt_oneway_us q.buf_start_t in
    if q.ready && q.buffer_active && not q.start_pkt_found
    then if ltb_ℤ (pos 0) index
      then start_found h pkt_rx_t_us pkt_oneway_us (pos_part index)
      else start_missed h
    else some h

unfoldable pub revert : Handling → Handling
revert h =
    let q : ReorderingBuf = h.retx_buffer in
    let (pkts, q') = revert_delay h.pkt_list q in
    if q.ready && q.buffer_active && q.start_pkt_found
    then record h { pkt_list = pkts; retx_buffer = q' }
    else h

module _ (qsort : (ℕ → ℕ → ℤ) → List ℕ → List ℕ) where
  -- The clock offset for a new retransmission; otherwise 0.
  pub pkt_offset : List DciArrays → RetxPkts → Bool → Option ℤ
  pkt_offset cells pkts new_dl =
      if new_dl
      then sync_dci_pkt pkts.retx_recv_t_us (get_retx_t qsort cells) offset_vec
      else some (pos 0)

  pub pkt_handling : Handling → Bool → ℕ → Option Handling
  pkt_handling h new_dl nof_cell = do
    pkts ← packets h.pkt_list
    cells ← arrays_in_use nof_cell h.dci_all
    offset ← pkt_offset cells pkts new_dl
    updated ←
        update_retx (record h { dci_all = sync_multi_cell cells offset ++ drop nof_cell h.dci_all })
          new_dl nof_cell
    started ← find_start updated (map (λ d. d.recv_t_us) pkts.all) (map (λ d. d.oneway_us) pkts.all)
    some (revert started)
