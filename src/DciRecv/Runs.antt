-- ===== src/DciRecv/Runs.antt =====
-- Runs of the receiver, and its theorems at concrete inputs.
use copa_new.Prelude.{ℕ, ◌+◌, ◌≡◌, ◌≢◌, refl, List, [], ◌∷◌, true, false, none, length, arith}
use copa_new.Dci.{UeDci, zero_ue_dci, ca_init}
use copa_new.DciRecv.{
  RecvState, ok, drained, stuck, decode_dci, recv_buffer, recv_config, drain, dispatch, preamble_at,
  all_bytes, store_config, byte_at, le16_at, after_message, read_prbs,
}
use copa_new.DciRecv.Progress.{drain-ne-stuck}
use copa_new.DciRecv.RoundTrip.{
  message_bytes, received, HasBytes-append_right, decode_dci-message_bytes,
}
use copa_new.DciRecv.Datagram.{Sent, datagram, store_all, drain-datagram}

abbrev start : RecvState
start = record {
  dci_ca = ca_init;
  go_exit = false;
  nof_dl_retx_per_cell = 0 ∷ 0 ∷ 0 ∷ 0 ∷ [];
  nof_ul_retx_per_cell = 0 ∷ 0 ∷ 0 ∷ 0 ∷ [];
}

-- A datagram with the exit preamble ends the receiver.
exit_datagram :
    drain zero_ue_dci 5 start (0xFF ∷ 0xFF ∷ 0xFF ∷ 0xFF ∷ []) 0 4
    ≡ drained (record start { go_exit = true })
unfolding drain dispatch recv_buffer preamble_at all_bytes after_message byte_at
exit_datagram = refl

-- A configuration of five cells writes past the end of `cell_prb`.
config_of_five_cells :
    recv_buffer zero_ue_dci start
      (0xBB ∷ 0xBB ∷ 0xBB ∷ 0xBB ∷ 5 ∷ 50 ∷ 0 ∷ 50 ∷ 0 ∷ 50 ∷ 0 ∷ 50 ∷ 0 ∷ 50 ∷ 0 ∷ [])
      0
      15
    ≡ none
unfolding dispatch recv_buffer recv_config preamble_at all_bytes read_prbs store_config byte_at
    le16_at
config_of_five_cells = refl

drain-ne-stuck_example : drain zero_ue_dci 5 start (0xAA ∷ 0xAA ∷ 0xAA ∷ 0xAA ∷ []) 0 4 ≢ stuck
drain-ne-stuck_example =
    drain-ne-stuck zero_ue_dci 5 start (0xAA ∷ 0xAA ∷ 0xAA ∷ 0xAA ∷ []) 0 4 (omega arith)

abbrev message : UeDci
message = record zero_ue_dci { time_stamp = 1000; tti = 300; dl_tbs = 70000; dl_retx = 1 }

decode_dci-message_bytes_example :
    decode_dci (message_bytes true false message 2) 0 (length (message_bytes true false message 2))
    ≡ ok (received true false message, 2, 0 + length (message_bytes true false message 2))
decode_dci-message_bytes_example =
    decode_dci-message_bytes true false message 2 (message_bytes true false message 2) 0
      (length (message_bytes true false message 2)) (omega arith) (omega arith) (omega arith)
      (omega arith) (HasBytes-append_right [] (message_bytes true false message 2))

abbrev sent : Sent
sent = record { dl = true; ul = false; message = message; cell_idx = 2 }

abbrev sent_later : Sent
sent_later = record { dl = false; ul = true; message = message; cell_idx = 0 }

abbrev bytes : List ℕ
bytes = datagram (sent ∷ sent_later ∷ [])

drain-datagram_example :
    drain zero_ue_dci 2 start bytes 0 (length bytes)
    ≡ store_all zero_ue_dci (sent ∷ sent_later ∷ []) start
drain-datagram_example =
    let sum : 0 + length bytes ≡ length bytes = omega arith in
    drain-datagram zero_ue_dci 2 sent (sent_later ∷ []) start bytes 0 (length bytes) refl
      (
        record { time = omega arith; dl_tbs = omega arith; ul_tbs = omega arith },
        (record { time = omega arith; dl_tbs = omega arith; ul_tbs = omega arith }, tt),
      )
      sum (HasBytes-append_right [] bytes) (omega arith)
