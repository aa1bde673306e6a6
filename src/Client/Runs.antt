-- ===== src/Client/Runs.antt =====
-- A run of the client, and its theorem at a concrete input.
use copa_new.Prelude.{◌≡◌, refl, List, [], ◌∷◌, map, Bool, true, false, Option, none, some}
use copa_new.Dci.{
  DciCa, ca_init, cell_init, new_dl_retx, new_ul_retx, copy_dl_retx, copy_ul_retx, new_retx_loop,
  copy_loop,
}
use copa_new.Extract.{DciArrays, extract_multi_cell, extract_cells, extract_single_cell}
use copa_new.Client.Handling.{
  Copied, copied, copy_dci_data_from_struct, copy_new, finish_copy, extract_if, copy_dl_if,
  copy_ul_if,
}
use copa_new.Client.Again.{copy_dci_data_from_struct-again}
use copa_new.Prelude.Int.{pos}
use copa_new.ReTx.{ReorderingBuf, init_buf}
use copa_new.PacketList.{PacketNode}
use copa_new.Client.{ack_of, send_pkt_list}
use copa_new.Client.Once.{due, send_pkt_list_once}

abbrev reverted : PacketNode
reverted = record {
  sequence_number = 1;
  recv_len_byte = 1500;
  oneway_us = 20000;
  recv_t_us = 5000;
  oneway_us_new = 12000;
  revert_flag = true;
  acked = false;
  burst_start = true;
}

abbrev waiting : PacketNode
waiting = record reverted { sequence_number = 2; revert_flag = false }

abbrev burst : ReorderingBuf
burst = record init_buf {
  ready = true;
  buffer_active = true;
  buf_size = pos 100;
  buf_last_t = 4000;
}

send_pkt_list_once_example :
    let ps = reverted ∷ waiting ∷ [] in
    let r = send_pkt_list burst 9000 ps 0 in
    (r.acks ≡ map (ack_of 9000) (due burst ps))
    × ((send_pkt_list burst 10000 r.pkt_list r.last_tx_pkt_t_us).acks ≡ [])
send_pkt_list_once_example = send_pkt_list_once burst 9000 10000 0 (reverted ∷ waiting ∷ [])

-- One cell with a retransmission that was not seen before.
abbrev rings : DciCa
rings = record ca_init { cell_dci = record cell_init { recent_dl_retx_t_us = 40 } ∷ [] }

abbrev arrays_or : Option (Bool × Copied) → List DciArrays
arrays_or none = []
arrays_or (some (b, r)) = r.dci_all

abbrev first_copy : Copied
first_copy =
    copied 1 true false (arrays_or (copy_dci_data_from_struct rings [] (30 ∷ []) (0 ∷ [])))
      (40 ∷ []) (0 ∷ [])

first_copy_goes : copy_dci_data_from_struct rings [] (30 ∷ []) (0 ∷ []) ≡ some (true, first_copy)
unfolding copy_dci_data_from_struct copy_new finish_copy extract_if copy_dl_if copy_ul_if
    new_dl_retx new_ul_retx copy_dl_retx copy_ul_retx new_retx_loop copy_loop extract_multi_cell
    extract_cells extract_single_cell ca_init cell_init
first_copy_goes = refl

copy_dci_data_from_struct-again_example :
    copy_dci_data_from_struct rings first_copy.dci_all (40 ∷ []) (0 ∷ [])
    ≡ some (false, record first_copy { new_dl_retx_v = false; new_ul_retx_v = false })
unfolding ca_init cell_init
copy_dci_data_from_struct-again_example =
    copy_dci_data_from_struct-again rings rings.cell_dci [] (30 ∷ []) (0 ∷ []) true first_copy refl
      first_copy_goes
