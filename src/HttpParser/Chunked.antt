-- ===== src/HttpParser/Chunked.antt =====
-- Messages in chunks: the pieces of a chunk, and the checkpoint of the pool.
use another_c_library.Prelude.{
  ℕ, suc, ◌+◌, Bool, true, false, ◌||◌, List, [], ◌∷◌, ◌++◌, ◌≡◌, ◌≢◌, refl, sym, ap, ap₂, ◌∙◌,
  arith, map, All, length,
}
use another_c_library.HttpParser.{
  Parser, Piece, Call, chunk_encoding, chunk, chunk_complete, handled, Event, at_message_begin,
  at_status, at_url, at_header_key, at_header_value, at_headers_complete, at_body, at_chunk_header,
  at_chunk_complete, at_message_complete, initial, on_chunk_header, on_chunk_complete,
  on_headers_complete, on_message_complete, on_status, on_header_key, on_header_value, on_url,
  on_body, save_current_header, step, run, body_bytes,
}
use another_c_library.HttpParser.Headers.{given, Stays, run-append, chunked-ne}
use another_c_library.HttpParser.Body.{run-bodies}

complete :
    (s : Parser)
    → s.chunked ≡ true
    → s.body_size ≢ 0
    → (run (at_chunk_complete ∷ []) s).calls ≡ s.calls ++ chunk (body_bytes s) ∷ []
unfolding step on_chunk_complete
complete s h n = ground arith

begin :
    (lh : Parser) (n : ℕ)
    → n ≢ 0
    → ((step (at_chunk_header n) lh).chunked ≡ true
        × (step (at_chunk_header n) lh).calls ≡ lh.calls)
      × ((step (at_chunk_header n) lh).body_size ≡ 0
          × (step (at_chunk_header n) lh).content_length ≡ n)
unfolding step on_chunk_header
begin lh n h = ground arith

abbrev pub chunk_events : ℕ → List Piece → List Event
chunk_events n bs = at_chunk_header n ∷ (map at_body bs ++ at_chunk_complete ∷ [])

-- A chunk of the announced length, not 0, makes one call, with all of its bytes, however they are
-- cut into pieces, if its data stay until they are looked at.
pub run-chunk :
    (lh : Parser) (n : ℕ) (bs : List Piece)
    → n ≢ 0
    → length (given bs) ≡ n
    → All Stays bs
    → (run (chunk_events n bs) lh).calls ≡ lh.calls ++ chunk (given bs) ∷ []
run-chunk lh n bs h e stay =
    let start = step (at_chunk_header n) lh in
    let g = begin lh n h in
    let s = run (map at_body bs) start in
    let f = run-bodies start bs g.1.0 (e ∙ sym g.1.1) stay in
    let size : s.body_size ≡ n = f.sized ∙ e in
    ap (λ q. q.calls) (run-append (map at_body bs) (at_chunk_complete ∷ []) start)
    ∙ complete s (f.chunked_kept ∙ g.0.0) (λ z. h (sym size ∙ z))
    ∙ ap₂ (λ l c. l ++ c ∷ []) (f.calls_kept ∙ g.0.1) (ap chunk f.found)

-- Whether an event announces a chunk.
abbrev announces_chunk : Event → Bool
announces_chunk (at_chunk_header n) = true
announces_chunk at_message_begin = false
announces_chunk (at_status p) = false
announces_chunk (at_url p) = false
announces_chunk (at_header_key p) = false
announces_chunk (at_header_value p) = false
announces_chunk (at_headers_complete i) = false
announces_chunk (at_body p) = false
announces_chunk at_chunk_complete = false
announces_chunk at_message_complete = false

abbrev pub any_chunk : List Event → Bool
any_chunk [] = false
any_chunk (e ∷ es) = announces_chunk e || any_chunk es

abbrev pub encodings : List Call → ℕ
encodings [] = 0
encodings (chunk_encoding ∷ cs) = suc (encodings cs)
encodings (handled u h b ∷ cs) = encodings cs
encodings (chunk b ∷ cs) = encodings cs
encodings (chunk_complete b ∷ cs) = encodings cs

encodings-append :
    (cs : List Call) (c : Call) → encodings (cs ++ c ∷ []) ≡ encodings cs + encodings (c ∷ [])
encodings-append [] c = omega arith
encodings-append (chunk_encoding ∷ cs) c = omega (arith, encodings-append cs c)
encodings-append (handled u h b ∷ cs) c = encodings-append cs c
encodings-append (chunk b ∷ cs) c = encodings-append cs c
encodings-append (chunk_complete b ∷ cs) c = encodings-append cs c

-- A parser that has taken no checkpoint, reset the pool as `wild` says and made `k` calls for a
-- chunked encoding.
record Unmarked (wild : Bool) (k : ℕ) (s : Parser) : Type 0 where
  pub no_checkpoint : s.checkpoint ≡ false
  pub wildness : s.wild_reset ≡ wild
  pub same_encodings : encodings s.calls ≡ k

step-Unmarked :
    (e : Event) {wild : Bool} {k : ℕ} (lh : Parser)
    → Unmarked wild k lh
    → Unmarked (wild || announces_chunk e) k (step e lh)
unfolding step on_status on_header_key on_header_value on_url on_body on_headers_complete
    on_chunk_header on_message_complete on_chunk_complete save_current_header
step-Unmarked at_message_begin lh u = ground (arith, u.no_checkpoint, u.wildness, u.same_encodings)
step-Unmarked (at_status p) lh u = ground (arith, u.no_checkpoint, u.wildness, u.same_encodings)
step-Unmarked (at_url p) lh u = ground (arith, u.no_checkpoint, u.wildness, u.same_encodings)
step-Unmarked (at_header_key p) lh u = ground (arith, u.no_checkpoint, u.wildness, u.same_encodings)
step-Unmarked (at_header_value p) lh u =
    ground (arith, u.no_checkpoint, u.wildness, u.same_encodings)
step-Unmarked (at_headers_complete i) lh u =
    ground (arith, u.no_checkpoint, u.wildness, u.same_encodings, chunked-ne i.flags)
step-Unmarked (at_body p) lh u = ground (arith, u.no_checkpoint, u.wildness, u.same_encodings)
step-Unmarked (at_chunk_header n) lh u = ground (
  arith,
  u.no_checkpoint,
  u.wildness,
  u.same_encodings,
  encodings-append lh.calls (chunk_complete []),
)
step-Unmarked at_chunk_complete lh u = ground (
  arith,
  u.no_checkpoint,
  u.wildness,
  u.same_encodings,
  encodings-append lh.calls (chunk (body_bytes lh)),
)
step-Unmarked at_message_complete lh u = ground (
  arith,
  u.no_checkpoint,
  u.wildness,
  u.same_encodings,
  encodings-append lh.calls (handled lh.url lh.headers (body_bytes lh)),
  encodings-append lh.calls (chunk_complete (body_bytes lh)),
)

or_false : (a : Bool) → (a || false) ≡ a
or_false true = refl
or_false false = refl

or_assoc : (a b c : Bool) → ((a || b) || c) ≡ (a || (b || c))
or_assoc true b c = refl
or_assoc false b c = refl

run-Unmarked :
    (es : List Event) {wild : Bool} {k : ℕ} (lh : Parser)
    → Unmarked wild k lh
    → Unmarked (wild || any_chunk es) k (run es lh)
run-Unmarked [] {wild} lh u = rw (or_false wild) u
run-Unmarked (e ∷ es) {wild} lh u =
    rw (← or_assoc wild (announces_chunk e) (any_chunk es))
      (run-Unmarked es (step e lh) (step-Unmarked e lh u))

-- Whatever llhttp reports to a new parser, the callback for a chunked encoding is never called, no
-- checkpoint of the pool is taken, and the pool is reset to one that has not been taken exactly if
-- a chunk is announced.
pub run-initial :
    (es : List Event)
    → (encodings (run es initial).calls ≡ 0)
      × ((run es initial).checkpoint ≡ false)
      × ((run es initial).wild_reset ≡ any_chunk es)
run-initial es =
    let u =
      run-Unmarked es initial
        (record { no_checkpoint = refl; wildness = refl; same_encodings = refl }) in
    (u.same_encodings, u.no_checkpoint, u.wildness)
