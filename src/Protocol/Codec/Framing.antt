-- ===== src/Protocol/Codec/Framing.antt =====
-- crates/snaca-channel-protocol/src/codec.rs: what is written is read back, message by message.
use mathlib.Core.List.{reverse, reverse-append, reverse-reverse}
use snaca.Base.{
  ℕ, suc, ◌≤◌, false, some, List, [], ◌∷◌, ◌++◌, append_assoc, map, ◌≡◌, refl, sym, ap, ◌∙◌, ◌==◌,
  ltb, length, All, arith,
}
use snaca.Core.Content.{Text}
use snaca.Llm.Lines.{split_lines, without_return}
use snaca.Protocol.JsonRpc.{JsonRpcMessage}
use snaca.Protocol.Codec.{
  Serde, message, trim_front, trim_whitespace, default_max_frame_bytes, or_nothing, push_newline,
  encode, decode_with_limit, decode, written, lines_of,
}

-- A JSON object's text: braces around bytes among which there is no newline.
abbrev pub braced : Text → Text
braced middle = 123 ∷ middle ++ 125 ∷ []

abbrev pub OneLine : Text → Type 0
OneLine = All (λ b. (b == 10) ≡ false)

-- A message that serde prints between braces, without a newline and within the limit, and reads back.
abbrev pub Prints : {V : Type 0} → Serde V → JsonRpcMessage V → Type 0
Prints serde m =
    (middle : Text) × (serde.to_vec m ≡ some (braced middle))
    × OneLine middle
    × (serde.from_slice (braced middle) ≡ some m)
    × (length (braced middle) ≤ default_max_frame_bytes)

reverse-braced : (middle : Text) → reverse (braced middle) ≡ 125 ∷ reverse (123 ∷ middle)
reverse-braced middle = reverse-append (123 ∷ middle) (125 ∷ [])

trim-braced : (middle : Text) → trim_whitespace (braced middle) ≡ braced middle
unfolding trim_front
trim-braced middle =
    ap (λ t. reverse (trim_front t)) (reverse-braced middle)
    ∙ ap reverse (sym (reverse-braced middle))
    ∙ reverse-reverse (braced middle)

without_return-braced : (middle : Text) → without_return (braced middle) ≡ braced middle
without_return-braced middle =
    rw (reverse-braced middle)
      (ap reverse (sym (reverse-braced middle)) ∙ reverse-reverse (braced middle))

split_lines-newline :
    (line rest : Text)
    → OneLine line
    → split_lines (line ++ 10 ∷ rest) ≡ (line ∷ (split_lines rest).0, (split_lines rest).1)
unfolding split_lines
split_lines-newline [] rest h = refl
split_lines-newline (b ∷ line) rest h = rw (h.0, split_lines-newline line rest h.1) refl

OneLine-braced : (middle : Text) → OneLine middle → OneLine (braced middle)
OneLine-braced middle h = (refl, ends middle h)
  where
    ends : (t : Text) → OneLine t → OneLine (t ++ 125 ∷ [])
    ends [] h = (refl, tt)
    ends (b ∷ t) h = (h.0, ends t h.1)

module _ {V : Type 0} (serde : Serde V) where
  written-Prints :
      (m : JsonRpcMessage V) (messages : List (JsonRpcMessage V)) (p : Prints serde m)
      → written serde (m ∷ messages) ≡ braced p.0 ++ 10 ∷ written serde messages
  unfolding written encode
  written-Prints m messages p =
      ap (λ o. or_nothing serde (push_newline o) ++ written serde messages) p.1
      ∙ append_assoc (braced p.0) (10 ∷ []) (written serde messages)

  lines_of-written :
      (m : JsonRpcMessage V) (messages : List (JsonRpcMessage V)) (p : Prints serde m)
      → lines_of (written serde (m ∷ messages)) ≡ braced p.0 ∷ lines_of (written serde messages)
  unfolding lines_of
  lines_of-written m messages p =
      rw
        (
          written-Prints m messages p,
          split_lines-newline (braced p.0) (written serde messages) (OneLine-braced p.0 p.2),
          without_return-braced p.0,
        )
        refl

  decode-braced :
      (m : JsonRpcMessage V) (p : Prints serde m) → decode serde (braced p.0) ≡ message m
  unfolding decode_with_limit
  decode-braced m p =
      let fits : ltb default_max_frame_bytes (length (braced p.0)) ≡ false =
        within (length (braced p.0)) p.4 in
      let some_bytes : (length (braced p.0) == 0) ≡ false = positive (length (p.0 ++ 125 ∷ [])) in
      rw (trim-braced p.0, some_bytes, fits, p.3) refl
    where
      within : (n : ℕ) → n ≤ default_max_frame_bytes → ltb default_max_frame_bytes n ≡ false
      within n h = ground arith

      positive : (n : ℕ) → (suc n == 0) ≡ false
      positive n = ground arith

  -- Messages that serde prints between braces, without a newline and within the limit, and reads back,
  -- come out of the reader's lines as they were put into the writer, one by one and in order.
  pub decode-written :
      (messages : List (JsonRpcMessage V))
      → All (Prints serde) messages
      → map (decode serde) (lines_of (written serde messages)) ≡ map message messages
  unfolding lines_of written
  decode-written [] h = refl
  decode-written (m ∷ messages) h =
      rw (lines_of-written m messages h.0, decode-braced m h.0, decode-written messages h.1) refl
