-- ===== src/Transfer/RoundTrip.antt =====
-- The server's packets, each received whole, through the loop of the client.
use Prim.Native.Nat.{ℕ}
use native.Mathlib.Nat.{add-zero, zero-add}
use mathlib.Core.Path.{ap₂}
use mathlib.Core.List.{append-nil}
use native.Mathlib.Numerals.{add-one}
use linux_app_samp.Base.{
  zero, suc, ◌+◌, ◌*◌, ◌%◌, ◌≤◌, ◌<◌, ◌≡◌, refl, ◌↔◌, ◌⊎◌, inl, inr, Bool, true, false, not, ◌&&◌,
  ◌==◌, if◌then◌else◌, Bytes, length, Option, some, List, [], ◌∷◌, ◌++◌, map, arith, Bool-cases,
  ◌∙◌,
}
use linux_app_samp.Transfer.Wire.{size_one_packet, data_code, send_one_packet}
use linux_app_samp.Transfer.Layout.{Chunk}
use linux_app_samp.Transfer.Sender.{send_loop, full_packets, packets, packets-suc, send_loop_total}
use linux_app_samp.Transfer.Receiver.{
  block, rcv_data_block, check_data, Outcome, finished, waiting, client_loop,
}
use linux_app_samp.Transfer.Check.{IsPiece, is_marked, rcv_sent_cases}

-- A packet that is received whole: the client sees the end exactly at a marked packet whose low
-- byte is not the data code, writes nothing behind its buffer, and reports the data as good exactly
-- if the piece, less five bytes at each end, is all data code, or if the mark was not recognised.
pub rcv_sent :
    {payload : Bytes} {start size : ℕ}
    → Chunk payload start size
    → (send_eof : Bool) → 0 < size
    → (ok : Bool) × (rcv_data_block (some (send_one_packet payload start size send_eof))
        ≡ block (is_marked size send_eof && not (size % 256 == data_code)) ok)
      × ((ok ≡ true)
          ↔ ((is_marked size send_eof && (size % 256 == data_code)) ≡ true)
            ⊎ IsPiece payload start size)
rcv_sent c send_eof p = elim (rcv_sent_cases c send_eof p) [
  | inl (low, e) ↦ (true, ground (arith, low), (λ h. inl low, λ h. refl))
  | inr (plain, buf, e, iff) ↦
      (check_data buf _, ground arith, (λ h. inr (iff.0 h), elim [ inl h ↦ cc | inr h ↦ iff.1 h ]))
]

-- Every piece of the data is the data code, less five bytes at each end of the piece.
abbrev pub IsClean : ℕ → ℕ → Bytes → ℕ → Type 0
IsClean zero size payload start = IsPiece payload start size
IsClean (suc count) size payload start =
    IsPiece payload start size_one_packet × IsClean count size payload (start + size_one_packet)

-- A line `rcv failed` for a block that is not good.
add_failure : Bool → ℕ
add_failure true = 0
add_failure false = 1

add_failure_iff : (ok : Bool) → (add_failure ok ≡ 0) ↔ (ok ≡ true)
unfolding add_failure
add_failure_iff ok = ground arith

client_loop-more :
    (cnt failures : ℕ) (r : Option Bytes) (rs : List (Option Bytes)) (ok : Bool)
    → rcv_data_block r ≡ block false ok
    → client_loop cnt failures (r ∷ rs) ≡ client_loop (suc cnt) (failures + add_failure ok) rs
unfolding client_loop add_failure
client_loop-more cnt failures r rs true h = rw (h, client_loop) (rw add-zero)
client_loop-more cnt failures r rs false h = rw (h, client_loop) (rw add-one)

client_loop-last :
    (cnt failures : ℕ) (r : Option Bytes) (rs : List (Option Bytes)) (ok : Bool)
    → rcv_data_block r ≡ block true ok
    → client_loop cnt failures (r ∷ rs) ≡ finished (suc cnt) (failures + add_failure ok) rs
unfolding client_loop add_failure
client_loop-last cnt failures r rs true h = rw (h, client_loop) (rw add-zero)
client_loop-last cnt failures r rs false h = rw (h, client_loop) (rw add-one)

-- Where the loop stands after a last packet of `size` bytes.
abbrev pub after_last : ℕ → ℕ → ℕ → List (Option Bytes) → Outcome
after_last size cnt failures rs =
    if size % 256 == data_code then client_loop cnt failures rs else finished cnt failures rs

client_loop-last_packet :
    (size : ℕ) (payload : Bytes) (start cnt failures : ℕ) (rs : List (Option Bytes)) (ok : Bool)
    → rcv_data_block (some (send_one_packet payload start size true))
      ≡ block (is_marked size true && not (size % 256 == data_code)) ok
    → client_loop cnt failures (some (send_one_packet payload start size true) ∷ rs)
      ≡ after_last size (suc cnt) (failures + add_failure ok) rs
client_loop-last_packet size payload start cnt failures rs ok e =
    let sent : Option Bytes = some (send_one_packet payload start size true) in
    elim (Bool-cases (size % 256 == data_code)) [
      | inl low ↦ rw low (client_loop-more cnt failures sent rs ok (ground arith))
      | inr low ↦ rw low (client_loop-last cnt failures sent rs ok (ground arith))
    ]

-- The loop over all packets of a block, received whole: `n` of them are reported as failed.
record Received (count size : ℕ) (payload : Bytes) (start cnt failures : ℕ)
    (rs : List (Option Bytes)) (n : ℕ) : Type 0 where
  outcome :
      client_loop cnt failures (map some (packets count size payload start) ++ rs)
      ≡ after_last size (cnt + suc count) (failures + n) rs
  good : IsClean count size payload start → n ≡ 0
  bad : n ≡ 0 → (size % 256 == data_code) ≡ false → IsClean count size payload start

Received-last :
    (size : ℕ) (payload : Bytes) (start cnt failures : ℕ) (rs : List (Option Bytes))
    → 0 < size
    → Chunk payload start size
    → (n : ℕ) × Received 0 size payload start cnt failures rs n
unfolding packets full_packets
Received-last size payload start cnt failures rs p c =
    let (ok, e, clean) = rcv_sent c true p in
    (
      add_failure ok,
      record {
        outcome =
            rw (add-zero, add-one)
              (client_loop-last_packet size payload start cnt failures rs ok e);
        good = λ h. (add_failure_iff ok).1 (clean.1 (inr h));
        bad = λ h low. ground (arith, (add_failure_iff ok).0 h, clean.0);
      },
    )

Received-more :
    (count size : ℕ) (payload : Bytes) (start cnt failures : ℕ) (rs : List (Option Bytes))
    (ok : Bool) (n : ℕ)
    → rcv_data_block (some (send_one_packet payload start size_one_packet false)) ≡ block false ok
    → (ok ≡ true) ↔ IsPiece payload start size_one_packet
    → Received count size payload
        (start + size_one_packet)
        (suc cnt)
        (failures + add_failure ok)
        rs
        n
    → Received (suc count) size payload start cnt failures rs (add_failure ok + n)
Received-more count size payload start cnt failures rs ok n e clean r = record {
  outcome = rw packets-suc (
      client_loop-more cnt failures _ _ ok e
      ∙ r.outcome
      ∙ ap₂ (λ c f. after_last size c f rs) (omega arith) (omega arith));
  good = λ h. omega (arith, (add_failure_iff ok).1 (clean.1 h.0), r.good h.1);
  bad = λ h low. (clean.0 ((add_failure_iff ok).0 (omega arith)), r.bad (omega arith) low);
}

Received-all :
    (count size : ℕ) (payload : Bytes) (start cnt failures : ℕ) (rs : List (Option Bytes))
    → 0 < size
    → size ≤ size_one_packet
    → start + (count * size_one_packet + size) ≤ length payload
    → (n : ℕ) × Received count size payload start cnt failures rs n
Received-all zero size payload start cnt failures rs p q h =
    Received-last size payload start cnt failures rs p (record { inside = omega arith; fits = q })
Received-all (suc count) size payload start cnt failures rs p q h =
    let (ok, e, clean) =
      rcv_sent {payload = payload} {start = start} {size = size_one_packet}
        (record { inside = omega arith; fits = omega arith }) false (omega arith) in
    let (n, r) =
      Received-all count size payload (start + size_one_packet) (suc cnt)
        (failures + add_failure ok) rs p q (omega arith) in
    (
      add_failure ok + n,
      Received-more count size payload start cnt failures rs ok n e (ground (arith, clean)) r,
    )

Received-alone :
    {count size : ℕ} {payload : Bytes} (n : ℕ)
    → Received count size payload 0 0 0 [] n
    → client_loop 0 0 (map some (packets count size payload 0)) ≡ after_last size (suc count) n []
Received-alone {count} {size} n r = rw (append-nil, zero-add, zero-add) at r.outcome

-- The transfer: for data of any length above 0, given as so many full pieces and a last one of
-- `size` bytes, the server's loop ends with a list of packets, and the client, which receives each
-- whole, ends its loop at the last of them, having read all and nothing more, if the low byte of
-- `size` is not the data code. The number of lines `rcv failed` is then 0 exactly if every piece is
-- all data code, less five bytes at each end.
pub transfer_complete :
    (count size : ℕ) (payload : Bytes)
    → 0 < size
    → size ≤ size_one_packet
    → length payload ≡ count * size_one_packet + size
    → (size % 256 == data_code) ≡ false
    → (ps : List Bytes) × (n : ℕ) × (send_loop (suc count) payload 0 (length payload) ≡ some ps)
      × (client_loop 0 0 (map some ps) ≡ finished (suc count) n [])
      × ((n ≡ 0) ↔ IsClean count size payload 0)
transfer_complete count size payload p q e low =
    let (n, r) = Received-all count size payload 0 0 0 [] p q (omega arith) in
    (
      packets count size payload 0,
      n,
      rw e (send_loop_total count (suc count) size payload 0 p q (omega arith)),
      Received-alone n r ∙ rw low,
      (λ h. r.bad h low, r.good),
    )

-- If the low byte of the length of the last piece is the data code, the client does not see the
-- end: after all the packets it waits for more.
pub transfer_end_lost :
    (count size : ℕ) (payload : Bytes)
    → 0 < size
    → size ≤ size_one_packet
    → length payload ≡ count * size_one_packet + size
    → size % 256 ≡ data_code
    → (ps : List Bytes) × (n : ℕ) × (send_loop (suc count) payload 0 (length payload) ≡ some ps)
      × (client_loop 0 0 (map some ps) ≡ waiting (suc count) n)
unfolding client_loop
transfer_end_lost count size payload p q e low =
    let (n, r) = Received-all count size payload 0 0 0 [] p q (omega arith) in
    (
      packets count size payload 0,
      n,
      rw e (send_loop_total count (suc count) size payload 0 p q (omega arith)),
      Received-alone n r ∙ ground arith,
    )
