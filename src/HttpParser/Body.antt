-- ===== src/HttpParser/Body.antt =====
-- The body is put together from its pieces, in a block of `content_length` bytes.
use another_c_library.Prelude.{
  ℕ, ◌+◌, ◌-◌, ◌≤◌, true, false, List, [], ◌∷◌, ◌++◌, ◌≡◌, ◌≢◌, refl, sym, ap, ap₂, ◌∙◌, arith, map,
  append-nil, append_assoc, All, Bytes, length, length-append, length-take, take, take_all,
}
use another_c_library.HttpParser.{Parser, Piece, at_body, on_body, step, run, body_bytes}
use another_c_library.HttpParser.Headers.{given, Stays}
use mathlib.Core.Path.{subst, subst⁻¹}

-- A body that is copied lies within the block of `content_length` bytes: what has been written, and
-- what may still be written, fill it exactly.
pub record Owned (lh : Parser) : Type 0 where
  pub filled :
      lh.body_terminated ≡ true → lh.body_size ≢ 0 → length lh.body + lh.body_left ≡ lh.body_size
  pub pointed : lh.body_terminated ≡ false → lh.body_left ≡ 0

-- No piece, however long, makes `on_body` write outside of the block.
pub on_body-Owned : (lh : Parser) (piece : Piece) → Owned lh → Owned (on_body lh piece)
unfolding on_body
on_body-Owned lh piece v = ground (
  arith,
  length-append {0} lh.body piece.bytes,
  length-append {0} lh.body (take lh.body_left piece.bytes),
  length-take {0} lh.body_left piece.bytes,
)

-- A parser of which the bytes `b` of a body of `n` bytes have been read; the rest is as in `start`.
pub record Read (start : Parser) (n : ℕ) (b : Bytes) (s : Parser) : Type 0 where
  pub bytes : s.body ≡ b
  pub size : s.body_size ≡ n
  pub left : s.body_left ≡ n - length b
  pub announced : s.content_length ≡ n
  pub same_headers : s.headers ≡ start.headers
  pub same_url : s.url ≡ start.url
  pub same_calls : s.calls ≡ start.calls
  pub same_chunked : s.chunked ≡ start.chunked

first_piece :
    (start : Parser) (n : ℕ) (p : Piece)
    → start.body_size ≡ 0
    → start.content_length ≡ n
    → length p.bytes ≤ n
    → Stays p
    → Read start n p.bytes (on_body start p)
unfolding on_body
first_piece start n p h k fits stay = ground (arith, stay)

nil_of : (b : Bytes) → length b ≡ 0 → b ≡ []
nil_of [] h = refl
nil_of (c ∷ b) h = absurd (omega arith)

next_piece :
    {start s : Parser} (n : ℕ) (b : Bytes) (p : Piece)
    → Read start n b s
    → length (b ++ p.bytes) ≤ n
    → Read start n (b ++ p.bytes) (on_body s p)
unfolding on_body
next_piece {start} {s} n b p r fits =
    let e = length-append {0} b p.bytes in
    let none : s.body_size ≡ 0 → b ≡ [] = λ z. nil_of b (omega (arith, r.size, z, e, fits)) in
    let fit : take s.body_left p.bytes ≡ p.bytes =
      take_all {0} s.body_left p.bytes (omega (arith, r.left, e, fits)) in
    ground (
      arith, e, none, fit, r.bytes, r.size, r.left, r.announced, r.same_headers, r.same_url,
      r.same_calls, r.same_chunked,
    )

step-at_body : (p : Piece) (lh : Parser) → step (at_body p) lh ≡ on_body lh p
unfolding step
step-at_body p lh = refl

later_pieces :
    {start : Parser} (n : ℕ) (ps : List Piece) (b : Bytes) (s : Parser)
    → Read start n b s
    → length (b ++ given ps) ≤ n
    → Read start n (b ++ given ps) (run (map at_body ps) s)
later_pieces n [] b s r fits = rw append-nil r
later_pieces {start} n (p ∷ ps) b s r fits =
    let e = append_assoc b p.bytes (given ps) in
    let fits' : length ((b ++ p.bytes) ++ given ps) ≤ n = rw e fits in
    let here : length (b ++ p.bytes) ≤ n =
      omega (arith, length-append {0} (b ++ p.bytes) (given ps), fits') in
    subst (λ c. Read start n c (run (map at_body (p ∷ ps)) s)) e
      (later_pieces n ps (b ++ p.bytes) (step (at_body p) s)
        (subst⁻¹ (Read start n (b ++ p.bytes)) (step-at_body p s) (next_piece n b p r here)) fits')

-- What a handler finds once a body has been read: the body `b`, and all else as in `start`.
pub record Finds (start : Parser) (b : Bytes) (s : Parser) : Type 0 where
  pub found : body_bytes s ≡ b
  pub sized : s.body_size ≡ length b
  pub headers_kept : s.headers ≡ start.headers
  pub url_kept : s.url ≡ start.url
  pub calls_kept : s.calls ≡ start.calls
  pub chunked_kept : s.chunked ≡ start.chunked

-- However a body of the announced length is cut into pieces, the callback finds all of it, if its
-- data stay until they are looked at, and nothing else of the message has changed.
pub run-bodies :
    (lh : Parser) (ps : List Piece)
    → lh.body_size ≡ 0
    → length (given ps) ≡ lh.content_length
    → All Stays ps
    → Finds lh (given ps) (run (map at_body ps) lh)
run-bodies lh [] h fits stay = record {
  found = ap (λ n. take n lh.body) h;
  sized = h;
  headers_kept = refl;
  url_kept = refl;
  calls_kept = refl;
  chunked_kept = refl;
}
run-bodies lh (p ∷ ps) h fits stay =
    let here : length p.bytes ≤ lh.content_length =
      omega (arith, length-append {0} p.bytes (given ps), fits) in
    let r =
      later_pieces lh.content_length ps p.bytes (step (at_body p) lh)
        (subst⁻¹ (Read lh lh.content_length p.bytes) (step-at_body p lh)
          (first_piece lh lh.content_length p h refl here stay.0))
        (omega (arith, fits)) in
    record {
      found =
          ap₂ take r.size r.bytes
          ∙ take_all {0} lh.content_length (given (p ∷ ps)) (omega (arith, fits));
      sized = r.size ∙ sym fits;
      headers_kept = r.same_headers;
      url_kept = r.same_url;
      calls_kept = r.same_calls;
      chunked_kept = r.same_chunked;
    }
