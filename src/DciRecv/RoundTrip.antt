-- ===== src/DciRecv/RoundTrip.antt =====
-- The wire format of a message, written down as an encoder, and what the decoder makes of it.
use copa_new.Prelude.{
  ℕ, suc, ◌+◌, ◌*◌, ◌/◌, ◌%◌, ◌^◌, ◌≤◌, ◌≡◌, refl, ap, subst, List, [], ◌∷◌, ◌++◌, Bool, true,
  false, ◌==◌, if◌then◌else◌, length, length-append, append_assoc, lt→leb, arith,
}
use copa_new.Prelude.Word.{IsU32, IsU64}
use copa_new.Dci.{UeDci, zero_ue_dci}
use copa_new.DciRecv.{
  ok, byte_at, of_read, be32_at, le16_at, recv_link, recv_dl, recv_ul, recv_dci_ver1, decode_dci,
}

-- Network byte order, and the low byte first.
abbrev pub be32 : ℕ → List ℕ
be32 x = (x / 2 ^ 24 % 256) ∷ (x / 2 ^ 16 % 256) ∷ (x / 2 ^ 8 % 256) ∷ (x % 256) ∷ []

abbrev pub le16 : ℕ → List ℕ
le16 x = (x % 256) ∷ (x / 256) ∷ []

abbrev pub link_bytes : Bool → ℕ → ℕ → List ℕ
link_bytes false retx tbs = []
link_bytes true retx tbs = retx ∷ be32 tbs

abbrev pub flag_byte : Bool → Bool → ℕ
flag_byte dl ul = (if dl then 1 else 0) + (if ul then 2 else 0)

-- A message of version 0, with or without its downlink and uplink part.
abbrev pub head_bytes : UeDci → ℕ → List ℕ
head_bytes d cell_idx =
    0 ∷ be32 (d.time_stamp % 2 ^ 32)
    ++ (be32 (d.time_stamp / 2 ^ 32) ++ (le16 d.tti ++ (cell_idx ∷ [])))

abbrev pub tail_bytes : Bool → Bool → UeDci → List ℕ
tail_bytes dl ul d =
    flag_byte dl ul ∷ link_bytes dl d.dl_retx d.dl_tbs ++ link_bytes ul d.ul_retx d.ul_tbs

abbrev pub message_bytes : Bool → Bool → UeDci → ℕ → List ℕ
message_bytes dl ul d cell_idx = head_bytes d cell_idx ++ tail_bytes dl ul d

-- What of a message is transmitted.
abbrev pub received : Bool → Bool → UeDci → UeDci
received dl ul d = record {
  time_stamp = d.time_stamp;
  tti = d.tti;
  dl_tbs = if dl then d.dl_tbs else 0;
  dl_retx = if dl then d.dl_retx else 0;
  dl_rv_flag = false;
  ul_tbs = if ul then d.ul_tbs else 0;
  ul_retx = if ul then d.ul_retx else 0;
  ul_rv_flag = false;
}

-- The buffer holds these bytes from index `i` on.
abbrev pub HasBytes : List ℕ → ℕ → List ℕ → Type 0
HasBytes buf i [] = Unit {0}
HasBytes buf i (b ∷ bs) = (byte_at buf i ≡ ok b) × HasBytes buf (i + 1) bs

pub HasBytes-append :
    (buf : List ℕ) (i j : ℕ) (xs ys : List ℕ)
    → HasBytes buf i (xs ++ ys)
    → j ≡ i + length xs
    → HasBytes buf i xs × HasBytes buf j ys
HasBytes-append buf i j [] ys h e =
    (tt, subst (λ k. HasBytes buf k ys) (let f : i ≡ j = omega arith in f) h)
HasBytes-append buf i j (x ∷ xs) ys h e =
    let (p, q) = HasBytes-append buf (i + 1) j xs ys h.1 (omega arith) in ((h.0, p), q)

byte_at-append : (xs : List ℕ) (b : ℕ) (ys : List ℕ) → byte_at (xs ++ (b ∷ ys)) (length xs) ≡ ok b
unfolding byte_at of_read
byte_at-append [] b ys = refl
byte_at-append (x ∷ xs) b ys = byte_at-append xs b ys

-- The bytes behind `xs` begin at the index `length xs`.
pub HasBytes-append_right : (xs bs : List ℕ) → HasBytes (xs ++ bs) (length xs) bs
HasBytes-append_right xs [] = tt
HasBytes-append_right xs (b ∷ bs) = (
  byte_at-append xs b bs,
  subst (λ buf. HasBytes buf (length xs + 1) bs) (append_assoc xs (b ∷ []) bs)
      (subst (λ k. HasBytes ((xs ++ (b ∷ [])) ++ bs) k bs) (length-append xs (b ∷ []))
        (HasBytes-append_right (xs ++ (b ∷ [])) bs)),
)

be32_at-be32 : (buf : List ℕ) (i x : ℕ) → IsU32 x → HasBytes buf i (be32 x) → be32_at buf i ≡ ok x
unfolding be32_at
be32_at-be32 buf i x h (a, (b, (c, (d, u)))) =
    let e₂ : i + 1 + 1 ≡ i + 2 = omega arith in
    let e₃ : i + 1 + 1 + 1 ≡ i + 3 = omega arith in
    let b₂ : byte_at buf (i + 2) ≡ ok (x / 2 ^ 8 % 256) = rw e₂ at c in
    let b₃ : byte_at buf (i + 3) ≡ ok (x % 256) = rw e₃ at d in
    rw (a, b, b₂, b₃) (ap ok (omega arith))

le16_at-le16 : (buf : List ℕ) (i x : ℕ) → HasBytes buf i (le16 x) → le16_at buf i ≡ ok x
unfolding le16_at
le16_at-le16 buf i x (a, (b, u)) = rw (a, b) (ap ok (omega arith))

recv_link-bytes :
    (buf : List ℕ) (i len retx tbs : ℕ)
    → IsU32 tbs
    → i + 5 ≤ len
    → HasBytes buf i (retx ∷ be32 tbs)
    → recv_link buf i len ≡ ok (retx, tbs)
unfolding recv_link
recv_link-bytes buf i len retx tbs h le (a, rest) =
    rw (lt→leb len (i + 4) (omega arith), a, be32_at-be32 buf (i + 1) tbs h rest)

recv_dl-bytes :
    (dl : Bool) (d₀ : UeDci) (buf : List ℕ) (i len retx tbs : ℕ)
    → IsU32 tbs
    → i + length (link_bytes dl retx tbs) ≤ len
    → HasBytes buf i (link_bytes dl retx tbs)
    → recv_dl dl d₀ buf i len
      ≡ ok (
        record d₀ {
          dl_retx = if dl then retx else d₀.dl_retx;
          dl_tbs = if dl then tbs else d₀.dl_tbs;
        },
        i + length (link_bytes dl retx tbs),
      )
unfolding recv_dl
recv_dl-bytes false d₀ buf i len retx tbs h le b = ap (λ k. ok (d₀, k)) (omega arith)
recv_dl-bytes true d₀ buf i len retx tbs h le b = rw (recv_link-bytes buf i len retx tbs h le b)

recv_ul-bytes :
    (ul : Bool) (d₀ : UeDci) (buf : List ℕ) (i len retx tbs : ℕ)
    → IsU32 tbs
    → i + length (link_bytes ul retx tbs) ≤ len
    → HasBytes buf i (link_bytes ul retx tbs)
    → recv_ul ul d₀ buf i len
      ≡ ok (
        record d₀ {
          ul_retx = if ul then retx else d₀.ul_retx;
          ul_tbs = if ul then tbs else d₀.ul_tbs;
        },
        i + length (link_bytes ul retx tbs),
      )
unfolding recv_ul
recv_ul-bytes false d₀ buf i len retx tbs h le b = ap (λ k. ok (d₀, k)) (omega arith)
recv_ul-bytes true d₀ buf i len retx tbs h le b = rw (recv_link-bytes buf i len retx tbs h le b)

flags_of :
    (dl ul : Bool) → ((flag_byte dl ul % 2 == 1) ≡ dl) × ((flag_byte dl ul / 2 % 2 == 1) ≡ ul)
flags_of false false = (refl, refl)
flags_of false true = (refl, refl)
flags_of true false = (refl, refl)
flags_of true true = (refl, refl)

recv_dci_ver1-bytes :
    (dl ul : Bool) (d d₀ : UeDci) (buf : List ℕ) (i len : ℕ)
    → IsU32 d.dl_tbs
    → IsU32 d.ul_tbs
    → i + length (tail_bytes dl ul d) ≤ len
    → HasBytes buf i (tail_bytes dl ul d)
    → recv_dci_ver1 d₀ buf i len
      ≡ ok (
        record d₀ {
          dl_retx = if dl then d.dl_retx else d₀.dl_retx;
          dl_tbs = if dl then d.dl_tbs else d₀.dl_tbs;
          ul_retx = if ul then d.ul_retx else d₀.ul_retx;
          ul_tbs = if ul then d.ul_tbs else d₀.ul_tbs;
        },
        i + length (tail_bytes dl ul d),
      )
unfolding recv_dci_ver1
recv_dci_ver1-bytes dl ul d d₀ buf i len hd hu le (flag, rest) =
    let a : List ℕ = link_bytes dl d.dl_retx d.dl_tbs in
    let b : List ℕ = link_bytes ul d.ul_retx d.ul_tbs in
    let sum = length-append a b in
    let (first, second) = HasBytes-append buf (i + 1) (i + 1 + length a) a b rest refl in
    let end : i + 1 + length a + length b ≡ i + suc (length (a ++ b)) = omega arith in
    let d₁ : UeDci = record d₀ {
      dl_retx = if dl then d.dl_retx else d₀.dl_retx;
      dl_tbs = if dl then d.dl_tbs else d₀.dl_tbs;
    } in
    let d₂ : UeDci = record d₁ {
      ul_retx = if ul then d.ul_retx else d₀.ul_retx;
      ul_tbs = if ul then d.ul_tbs else d₀.ul_tbs;
    } in
    rw
      (
        lt→leb len i (omega arith),
        flag,
        (flags_of dl ul).0,
        (flags_of dl ul).1,
        recv_dl-bytes dl d₀ buf (i + 1) len d.dl_retx d.dl_tbs hd (omega arith) first,
        recv_ul-bytes ul d₁ buf (i + 1 + length a) len d.ul_retx d.ul_tbs hu (omega arith) second,
      )
      (ap (λ k. ok (d₂, k)) end)

-- A message of version 0 that lies in the received bytes is decoded to what of it is transmitted,
-- its cell, and the index behind its last byte.
pub decode_dci-message_bytes :
    (dl ul : Bool) (d : UeDci) (cell_idx : ℕ) (buf : List ℕ) (i len : ℕ)
    → IsU64 d.time_stamp
    → IsU32 d.dl_tbs
    → IsU32 d.ul_tbs
    → i + length (message_bytes dl ul d cell_idx) ≤ len
    → HasBytes buf i (message_bytes dl ul d cell_idx)
    → decode_dci buf i len
      ≡ ok (received dl ul d, cell_idx, i + length (message_bytes dl ul d cell_idx))
unfolding decode_dci
decode_dci-message_bytes dl ul d cell_idx buf i len ht hd hu le h =
    let last : List ℕ = cell_idx ∷ tail_bytes dl ul d in
    let after_upper : List ℕ = le16 d.tti ++ last in
    let after_lower : List ℕ = be32 (d.time_stamp / 2 ^ 32) ++ after_upper in
    let (lower, h₂) =
      HasBytes-append buf (i + 1) (i + 5) (be32 (d.time_stamp % 2 ^ 32)) after_lower h.1
        (omega arith) in
    let (upper, h₃) =
      HasBytes-append buf (i + 5) (i + 9) (be32 (d.time_stamp / 2 ^ 32)) after_upper h₂
        (omega arith) in
    let (tti, h₄) = HasBytes-append buf (i + 9) (i + 11) (le16 d.tti) last h₃ (omega arith) in
    let time : d.time_stamp % 2 ^ 32 + d.time_stamp / 2 ^ 32 * 2 ^ 32 ≡ d.time_stamp =
      omega arith in
    let place : i + 11 + 1 ≡ i + 12 = omega arith in
    let tail : HasBytes buf (i + 12) (tail_bytes dl ul d) =
      subst (λ k. HasBytes buf k (tail_bytes dl ul d)) place h₄.1 in
    let d₀ : UeDci = record zero_ue_dci { time_stamp = d.time_stamp; tti = d.tti } in
    rw
      (
        lt→leb len (i + 11) (omega arith),
        h.0,
        be32_at-be32 buf (i + 1) (d.time_stamp % 2 ^ 32) (omega arith) lower,
        be32_at-be32 buf (i + 5) (d.time_stamp / 2 ^ 32) (omega arith) upper,
        le16_at-le16 buf (i + 9) d.tti tti,
        h₄.0,
        time,
        recv_dci_ver1-bytes dl ul d d₀ buf (i + 12) len hd hu (omega arith) tail,
      )
      (ap (λ k. ok (received dl ul d, cell_idx, k)) (omega arith))
