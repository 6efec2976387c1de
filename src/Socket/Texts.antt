-- ===== src/Socket/Texts.antt =====
-- Which texts the servers print.
use linux_app_samp.Base.{
  ltb, if◌then◌else◌, Bool-cases, length, take, replicate, append_assoc, append_nil, Bytes, overlay,
  length-overlay, codes, c_str, str_copy, IsText, ℕ, zero, suc, ◌<◌, ◌≡◌, refl, sym, ap, ◌∙◌, inl,
  inr, Bool, false, none, some, List, [], ◌∷◌, ◌++◌, map, arith,
}
use linux_app_samp.Machine.{All}
use linux_app_samp.Socket.Loops.{
  size_buf, to_send_text, finished, memory_error, tx_loop, client, copied, waiting, ends, rx_line,
  rx_show, rx_loop,
}

-- What one call receives: a text with its zero, and what stands behind it.
abbrev pub Piece : Type 0
Piece = Bytes × Bytes

abbrev pub whole : Piece → Bytes
whole (text, rest) = text ++ 0 ∷ rest

abbrev pub Fits : Piece → Type 0
Fits (text, rest) = IsText text × (length text < size_buf)

c_str-overlay_rest :
    (t rest buf : Bytes) (n : ℕ)
    → IsText t
    → length t < n
    → length t < length buf
    → c_str (overlay (take n (t ++ 0 ∷ rest)) buf) ≡ some t
unfolding c_str overlay take
c_str-overlay_rest t rest [] n h p q = absurd (omega arith)
c_str-overlay_rest t rest (y ∷ buf) zero h p q = absurd (omega arith)
c_str-overlay_rest [] rest (y ∷ buf) (suc n) h p q = refl
c_str-overlay_rest (x ∷ t) rest (y ∷ buf) (suc n) h p q =
    ground (arith, c_str-overlay_rest t rest buf n h.1 (omega arith) (omega arith))

never_ends : (tcp : Bool) (p : Piece) → ends tcp (some (whole p)) ≡ false
never_ends tcp ([], rest) = refl
never_ends tcp (x ∷ text, rest) = refl

-- With an array of 200 bytes: if each call receives a text of less than 200 bytes with its zero, and
-- anything behind that, it prints one line, `rx: ` and this first text: what TCP brings together with
-- it is not shown.
pub first_texts :
    (tcp : Bool) (buf : Bytes) (printed : List Bytes) (ps : List Piece)
    → length buf ≡ size_buf
    → All Fits ps
    → rx_loop tcp buf printed (map (λ p. some (whole p)) ps)
      ≡ waiting (printed ++ map (λ p. codes "rx: " ++ (p.0 ++ 10 ∷ [])) ps)
unfolding rx_loop
first_texts tcp buf printed [] n fits = ap waiting (sym (append_nil printed))
first_texts tcp buf printed ((text, rest) ∷ ps) n fits =
    let buf' = overlay (take size_buf (whole (text, rest))) buf in
    let shown : c_str buf' ≡ some text =
      c_str-overlay_rest text rest buf size_buf fits.0.0 fits.0.1 (omega (arith, n, fits.0.1)) in
    let rs = map (λ p. some (whole p)) ps in
    rw (never_ends tcp (text, rest)) (
      ap (λ o. rx_show o printed (λ lines. rx_loop tcp buf' lines rs)) shown
      ∙ first_texts tcp buf' (printed ++ rx_line text ∷ []) ps
          (length-overlay (take size_buf (whole (text, rest))) buf ∙ n) fits.1
      ∙ ap waiting (append_assoc printed (rx_line text ∷ []) (map (λ p. rx_line p.0) ps)))

abbrev pub message : Bytes
message = to_send_text ++ 0 ∷ []

abbrev pub tx_line : Bytes
tx_line = codes "tx:" ++ (to_send_text ++ 10 ∷ [])

finished_eq : {a b c d : List Bytes} → a ≡ b → c ≡ d → finished a c ≡ finished b d
finished_eq p q = ground (arith, p, q)

tx_loop-all :
    (n : ℕ) (sent printed : List Bytes)
    → tx_loop n sent printed
      ≡ finished (sent ++ replicate n message) (printed ++ replicate n tx_line)
unfolding tx_loop replicate
tx_loop-all zero sent printed = finished_eq (sym (append_nil sent)) (sym (append_nil printed))
tx_loop-all (suc n) sent printed =
    tx_loop-all n (sent ++ message ∷ []) (printed ++ tx_line ∷ [])
    ∙ finished_eq (append_assoc sent (message ∷ []) (replicate n message))
        (append_assoc printed (tx_line ∷ []) (replicate n tx_line))

copy_80 :
    (arg : Bytes)
    → str_copy (replicate 80 0) arg
      ≡ (if ltb (length arg) 80 then some (overlay (arg ++ 0 ∷ []) (replicate 80 0)) else none)
unfolding str_copy replicate
copy_80 arg = refl

-- A client with an address of less than 80 bytes sends the text three times, each time with its zero; a
-- longer one is written behind the array.
pub client_sends :
    (arg : Bytes)
    → client (some arg) ≡ (
        if ltb (length arg) 80
        then finished
            (replicate 3 message)
            ((codes "to " ++ (arg ++ 10 ∷ [])) ∷ replicate 3 tx_line)
        else memory_error)
unfolding client replicate
client_sends arg = ap (λ o. copied o arg) (copy_80 arg) ∙ elim (Bool-cases (ltb (length arg) 80)) [
  | inl fits ↦ rw fits (tx_loop-all 3 [] ((codes "to " ++ (arg ++ 10 ∷ [])) ∷ []))
  | inr long ↦ rw long refl
]
