-- ===== src/Honeypot/Http/Body.antt =====
-- Reading a body within its limit, and the preview that is stored of it.
use mathlib.Core.List.{append_assoc, append-nil}
use honeywatch.Prelude.{
  ℕ, ◌+◌, ◌≤◌, ◌≡◌, refl, ◌≢◌, ◌⊎◌, inl, inr, Text, Bool, ◌||◌, List, [], ◌∷◌, ◌++◌, none, some,
  arith, length, length-append, length-take, take, flatten, ltb, Bool-cases, if◌then◌else◌,
}
use honeywatch.Stdlib.Utf8.{Bytes, decode_replace, length-decode_replace}
use honeywatch.Honeypot.Request.{
  max_body_size, body_preview_limit, Request, body_preview_from_bytes, read_chunks,
  declares_too_much, read_body_limited,
}

read_chunks_lem :
    (l : List Bytes) (breaks : Bool) (total : ℕ) (kept : Bytes)
    → total ≤ max_body_size
    → read_chunks l breaks total kept ≡ (
        if ltb max_body_size (total + length (flatten l))
        then none
        else some (if breaks then [] else kept ++ flatten l))
unfolding read_chunks
read_chunks_lem [] breaks total kept h = ground (arith, append-nil kept)
read_chunks_lem (c ∷ l) breaks total kept h =
    elim (Bool-cases (ltb max_body_size (total + length c))) [
      | inl over ↦ rw over (ground (arith, length-append c (flatten l)))
      | inr within ↦
          rw (within, read_chunks_lem l breaks (total + length c) (kept ++ c) (ground arith))
            (ground (arith, length-append c (flatten l), append_assoc kept c (flatten l)))
    ]

-- The body that a login may have: what its chunks hold, or nothing if the reading broke off.
abbrev pub received : Request → Bytes
received r = if r.breaks then [] else flatten r.chunks

-- A body is refused exactly when its declared length or the bytes that came exceed the limit; any
-- other is read whole, or counts as empty if the reading broke off.
pub read_body_limited_lem :
    (r : Request)
    → read_body_limited r ≡ (
        if declares_too_much r.content_length || ltb max_body_size (length (flatten r.chunks))
        then none
        else some (received r))
unfolding read_body_limited
read_body_limited_lem r = ground (arith, read_chunks_lem r.chunks r.breaks 0 [])

length-preview :
    (body : Bytes) → length (decode_replace (take body_preview_limit body)) ≤ body_preview_limit
length-preview body = omega (
  arith,
  length-decode_replace (take body_preview_limit body),
  length-take body_preview_limit body,
)

-- The preview of a body is missing exactly when the body is empty, and never holds more characters
-- than the limit.
pub body_preview_bound :
    (body : Bytes)
    → ((body_preview_from_bytes body ≡ none) × (body ≡ []))
      ⊎ ((t : Text) × (body_preview_from_bytes body ≡ some t)
          × (body ≢ [])
          × (length t ≤ body_preview_limit))
unfolding body_preview_from_bytes
body_preview_bound [] = inl (refl, refl)
body_preview_bound (b ∷ body) = inr (
  decode_replace (take body_preview_limit (b ∷ body)),
  refl,
  (λ e. cc),
  omega (arith, length-preview (b ∷ body)),
)
