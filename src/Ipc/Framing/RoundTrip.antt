-- ===== src/Ipc/Framing/RoundTrip.antt =====
-- What a reader makes of what a writer wrote.
use k8s4claw.Base.{
  ap, ◌∙◌, ℕ, zero, suc, ◌^◌, ◌≤◌, ◌<◌, ◌≡◌, ◌⊎◌, inl, inr, refl, Bool-cases, Bool, true, some,
  List, [], ◌∷◌, ◌++◌, arith, append_assoc, length, ltb,
}
use k8s4claw.Ipc.Message.{Message}
use k8s4claw.Ipc.Framing.{
  Json, written, put_uint32, get_uint32, write_message, Full, full, short, at_eof, extend,
  read_full, received, decode, read_body, read_header, read_message, max_message_size,
}

get_uint32-put_uint32 : (n : ℕ) → n < 2 ^ 32 → get_uint32 (put_uint32 n) ≡ n
unfolding get_uint32 put_uint32
get_uint32-put_uint32 n h = omega arith

read_full-append : (xs rest : List ℕ) → read_full (length xs) (xs ++ rest) ≡ full xs rest
unfolding read_full
read_full-append [] rest = refl
read_full-append (x ∷ xs) rest = rw (read_full-append xs rest)

read_full-header : (n : ℕ) (s : List ℕ) → read_full 4 (put_uint32 n ++ s) ≡ full (put_uint32 n) s
unfolding put_uint32
read_full-header n s = read_full-append (put_uint32 n) s

-- A frame whose length fits reads back as its decoded content, and the bytes after it are left.
read_message-frame :
    (json : Json) (content rest : List ℕ)
    → length content ≤ max_message_size
    → read_message json (put_uint32 (length content) ++ (content ++ rest))
      ≡ decode json content rest
unfolding read_message read_header
read_message-frame json content rest h = rw (read_full-header (length content) (content ++ rest)) (
    rw (get_uint32-put_uint32 (length content) (omega arith), read_full-append content rest)
      (ground (arith)))

write_message-inv :
    (json : Json) (w : List ℕ → Bool) (msg : Message) (content frame : List ℕ)
    → json.marshal msg ≡ some content
    → write_message json w msg ≡ written frame
    → (frame ≡ put_uint32 (length content) ++ content)
      × (length content ≤ max_message_size)
      × (w frame ≡ true)
unfolding write_message
write_message-inv json w msg content frame m e = ground arith

-- What a write puts on the stream reads back as the message that was written, and leaves what
-- follows it, if JSON reads back what it writes.
pub read_message-write_message :
    (json : Json) (w : List ℕ → Bool) (msg : Message) (content frame rest : List ℕ)
    → json.marshal msg ≡ some content
    → json.unmarshal content ≡ some msg
    → write_message json w msg ≡ written frame
    → read_message json (frame ++ rest) ≡ received msg rest
read_message-write_message json w msg content frame rest m u e =
    let inv = write_message-inv json w msg content frame m e in
    rw (inv.0, append_assoc) (rw (read_message-frame json content rest inv.1) (rw (u, decode)))

-- A full read hands over as many bytes as were asked for, and splits the stream there.
read_full-inv :
    (n : ℕ) (s : List ℕ) (xs rest : List ℕ)
    → read_full n s ≡ full xs rest
    → (length xs ≡ n) × (s ≡ xs ++ rest)
unfolding read_full
read_full-inv zero s xs rest e = ground arith
read_full-inv (suc n) [] xs rest e = cc
read_full-inv (suc n) (b ∷ s) xs rest e = elim (Full-cases (read_full n s)) [
  | inl (ys, r, q) ↦ ground (arith, read_full-inv n s ys r q)
  | inr q ↦ ground arith
]
  where
    Full-cases :
        (f : Full) → ((ys : List ℕ) × (r : List ℕ) × (f ≡ full ys r)) ⊎ (extend b f ≡ short)
    Full-cases (full ys r) = inl (ys, r, refl)
    Full-cases short = inr refl
    Full-cases at_eof = inr refl

module _ (json : Json) (msg : Message) (rest : List ℕ) where
  -- What a received message says of the stream behind a header that announced `n` bytes.
  abbrev Body : ℕ → List ℕ → Type 0
  Body n s =
      (content : List ℕ) × (s ≡ content ++ rest)
      × (length content ≡ n)
      × (json.unmarshal content ≡ some msg)

  decode-inv :
      (content r : List ℕ)
      → decode json content r ≡ received msg rest
      → (json.unmarshal content ≡ some msg) × (r ≡ rest)
  decode-inv content r e = ground arith

  read_body-inv :
      (n : ℕ) (s : List ℕ) (f : Full)
      → read_full n s ≡ f
      → read_body json f ≡ received msg rest
      → Body n s
  read_body-inv n s (full content r) q b =
      let inv = read_full-inv n s content r q in
      let d = decode-inv content r b in (content, inv.1 ∙ ap (λ t. content ++ t) d.1, inv.0, d.0)
  read_body-inv n s short q b = cc
  read_body-inv n s at_eof q b = cc

  abbrev Framed : List ℕ → Type 0
  Framed s =
      (header : List ℕ) × (content : List ℕ) × (s ≡ header ++ (content ++ rest))
      × (length header ≡ 4)
      × (length content ≡ get_uint32 header)
      × (get_uint32 header ≤ max_message_size)
      × (json.unmarshal content ≡ some msg)

  read_header-inv :
      (s : List ℕ) (f : Full)
      → read_full 4 s ≡ f
      → read_header json f ≡ received msg rest
      → Framed s
  unfolding read_header
  read_header-inv s (full header s') q b =
      elim (Bool-cases (ltb max_message_size (get_uint32 header))) [
        | inl big ↦ absurd (ground arith)
        | inr fits ↦
            let h = read_full-inv 4 s header s' q in
            let (content, split, len, ok) =
              read_body-inv (get_uint32 header) s' (read_full (get_uint32 header) s') refl
                (rw fits at b) in
            (header, content, h.1 ∙ ap (λ t. header ++ t) split, h.0, len, ground (arith, fits), ok)
      ]
  read_header-inv s short q b = cc
  read_header-inv s at_eof q b = cc

-- A message is received only from a whole frame: four header bytes, then as many bytes as they
-- announce, no more than the limit, which decode to the message. What follows is left.
pub read_message-inv :
    (json : Json) (s rest : List ℕ) (msg : Message)
    → read_message json s ≡ received msg rest
    → (header : List ℕ) × (content : List ℕ) × (s ≡ header ++ (content ++ rest))
      × (length header ≡ 4)
      × (length content ≡ get_uint32 header)
      × (get_uint32 header ≤ max_message_size)
      × (json.unmarshal content ≡ some msg)
unfolding read_message
read_message-inv json s rest msg e = read_header-inv json msg rest s (read_full 4 s) refl e
