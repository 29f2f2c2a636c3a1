-- ===== src/HttpParser/Headers.antt =====
-- The headers and the address are put together from their pieces.
use another_c_library.Prelude.{
  ℕ, Bool, true, false, List, [], ◌∷◌, ◌++◌, ◌≡◌, ◌≢◌, refl, sym, ap, ap₂, ◌∙◌, arith, All, map,
  append-nil, append_assoc, if◌then◌else◌, Bytes,
}
use Prim.Native.Nat.{bit_and}
use mathlib.Core.Path.{subst, subst⁻¹}
use another_c_library.Prelude.{◌==◌}
use another_c_library.Prelude.Bits.{bit_and_low}
use another_c_library.HttpParser.{
  f_chunked, Header, Piece, Parser, Event, at_url, at_header_key, at_header_value,
  at_headers_complete, Info, save_current_header, set_buf, on_headers_complete, step, run, is_empty,
}

pub run-append : (es fs : List Event) (lh : Parser) → run (es ++ fs) lh ≡ run fs (run es lh)
run-append [] fs lh = refl
run-append (e ∷ es) fs lh = run-append es fs (step e lh)

-- What is given during the calls.
abbrev pub given : List Piece → Bytes
given [] = []
given (p ∷ ps) = p.bytes ++ given ps

-- What is found of the pieces in the end: copies of all but the first one that is not empty, which
-- is read where it was. The bytes `b` have been found before.
abbrev pub found : Bytes → List Piece → Bytes
found b [] = b
found [] (p ∷ ps) = found p.later ps
found (c ∷ b) (p ∷ ps) = found ((c ∷ b) ++ p.bytes) ps

-- The data stay as they are until they are looked at.
abbrev pub Stays : Piece → Type 0
Stays p = p.later ≡ p.bytes

found-given : (b : Bytes) (ps : List Piece) → All Stays ps → found b ps ≡ b ++ given ps
found-given b [] h = sym (append-nil b)
found-given [] (p ∷ ps) h = found-given p.later ps h.1 ∙ ap (λ c. c ++ given ps) h.0
found-given (c ∷ b) (p ∷ ps) h =
    found-given ((c ∷ b) ++ p.bytes) ps h.1 ∙ append_assoc (c ∷ b) p.bytes (given ps)

step-at_url : (p : Piece) (lh : Parser) → step (at_url p) lh ≡ record lh { url = lh.url ++ p.bytes }
unfolding step
step-at_url p lh = ap (λ u. record lh { url = u }) (go lh.url)
  where
    go : (b : Bytes) → (if is_empty b then p.bytes else set_buf b p) ≡ b ++ p.bytes
    go [] = refl
    go (c ∷ b) = refl

-- The pieces of an address.
pub run-urls :
    (ps : List Piece) (lh : Parser)
    → run (map at_url ps) lh ≡ record lh { url = lh.url ++ given ps }
run-urls [] lh = rw append-nil
run-urls (p ∷ ps) lh =
    ap (run (map at_url ps)) (step-at_url p lh)
    ∙ run-urls ps (record lh { url = lh.url ++ p.bytes })
    ∙ ap (λ u. record lh { url = u }) (append_assoc lh.url p.bytes (given ps))

-- A parser with this much read of the headers.
abbrev pub reading : Parser → List Header → Bytes → Bytes → Bool → Parser
reading lh hs k v last = record lh {
  headers = hs;
  header_key = k;
  header_value = v;
  last_was_value = last;
}

module _ (lh : Parser) (hs : List Header) where
  step-key :
      (k v : Bytes) (p : Piece)
      → step (at_header_key p) (reading lh hs k v false) ≡ reading lh hs (found k (p ∷ [])) [] false
  unfolding step
  step-key [] v p = refl
  step-key (c ∷ k) v p = refl

  step-key_next :
      (k v : Bytes) (p : Piece)
      → k ≢ []
      → step (at_header_key p) (reading lh hs k v true)
        ≡ reading lh (hs ++ (k, v) ∷ []) p.later [] false
  unfolding step
  step-key_next [] v p h = absurd (h refl)
  step-key_next (c ∷ k) v p h = refl

  step-value :
      (k v : Bytes) (p : Piece) (last : Bool)
      → step (at_header_value p) (reading lh hs k v last) ≡ reading lh hs k (found v (p ∷ [])) true
  unfolding step
  step-value k [] p last = refl
  step-value k (c ∷ v) p last = refl

  run-keys :
      (ps : List Piece) (k : Bytes)
      → run (map at_header_key ps) (reading lh hs k [] false) ≡ reading lh hs (found k ps) [] false
  run-keys [] k = refl
  run-keys (p ∷ ps) [] = ap (run (map at_header_key ps)) (step-key [] [] p) ∙ run-keys ps p.later
  run-keys (p ∷ ps) (c ∷ k) =
      ap (run (map at_header_key ps)) (step-key (c ∷ k) [] p) ∙ run-keys ps ((c ∷ k) ++ p.bytes)

  run-values :
      (ps : List Piece) (k v : Bytes)
      → run (map at_header_value ps) (reading lh hs k v true) ≡ reading lh hs k (found v ps) true
  run-values [] k v = refl
  run-values (p ∷ ps) k [] =
      ap (run (map at_header_value ps)) (step-value k [] p true) ∙ run-values ps k p.later
  run-values (p ∷ ps) k (c ∷ v) =
      ap (run (map at_header_value ps)) (step-value k (c ∷ v) p true)
      ∙ run-values ps k ((c ∷ v) ++ p.bytes)

-- A header as llhttp hands it over: the pieces of the name and those of the value, at least one
-- of each.
pub record Pieces : Type 0 where
  pub name : Piece
  pub names : List Piece
  pub value : Piece
  pub values : List Piece

abbrev pub events_of : Pieces → List Event
events_of f = map at_header_key (f.name ∷ f.names) ++ map at_header_value (f.value ∷ f.values)

abbrev pub all_events : List Pieces → List Event
all_events [] = []
all_events (f ∷ fs) = events_of f ++ all_events fs

abbrev pub whole : Pieces → Header
whole f = (found [] (f.name ∷ f.names), found [] (f.value ∷ f.values))

-- The header as it was given.
abbrev pub given_whole : Pieces → Header
given_whole f = (given (f.name ∷ f.names), given (f.value ∷ f.values))

abbrev pub AllStays : Pieces → Type 0
AllStays f = All Stays (f.name ∷ f.names) × All Stays (f.value ∷ f.values)

pub whole-given : (fs : List Pieces) → All AllStays fs → map whole fs ≡ map given_whole fs
whole-given [] h = refl
whole-given (f ∷ fs) h =
    ap₂ (◌∷◌)
      (ap₂ (λ k v. (k, v)) (found-given [] (f.name ∷ f.names) h.0.0)
        (found-given [] (f.value ∷ f.values) h.0.1))
      (whole-given fs h.1)

abbrev pub Named : Pieces → Type 0
Named f = (whole f).0 ≢ []

run-pieces :
    (lh : Parser) (hs : List Header) (f : Pieces) (start : Parser)
    → step (at_header_key f.name) start ≡ reading lh hs f.name.later [] false
    → run (events_of f) start ≡ reading lh hs (whole f).0 (whole f).1 true
run-pieces lh hs f start e =
    run-append (map at_header_key (f.name ∷ f.names)) (map at_header_value (f.value ∷ f.values))
      start
    ∙ ap (λ s. run (map at_header_value (f.value ∷ f.values)) (run (map at_header_key f.names) s)) e
    ∙ ap (run (map at_header_value (f.value ∷ f.values))) (run-keys lh hs f.names f.name.later)
    ∙ ap (run (map at_header_value f.values)) (step-value lh hs (whole f).0 [] f.value false)
    ∙ run-values lh hs f.values (whole f).0 f.value.later

-- The headers that are kept: all but a last one whose value is empty.
abbrev pub kept : List Header → List Header
kept [] = []
kept ((k, []) ∷ []) = []
kept ((k, c ∷ v) ∷ []) = (k, c ∷ v) ∷ []
kept (h ∷ i ∷ hs) = h ∷ kept (i ∷ hs)

-- What is known of a parser once llhttp has said that the headers are complete.
pub record AfterHeaders (lh : Parser) (parser : Info) (hs : List Header) (s : Parser) : Type 0 where
  pub all_headers : s.headers ≡ hs
  pub same_url : s.url ≡ lh.url
  pub same_calls : s.calls ≡ lh.calls
  pub same_checkpoint : s.checkpoint ≡ lh.checkpoint
  pub no_body : s.body_size ≡ 0
  pub nothing_left : s.body_left ≡ 0
  pub length_read : s.content_length ≡ parser.content_length
  pub not_chunked : s.chunked ≡ false

-- The mask of F_CHUNKED is never 1.
pub chunked-ne : (flags : ℕ) → (bit_and flags f_chunked == 1) ≡ false
chunked-ne flags = ground (arith, bit_and_low flags f_chunked)

complete-reading :
    (lh : Parser) (hs : List Header) (k v : Bytes) (last : Bool) (parser : Info)
    → k ≢ []
    → AfterHeaders lh parser
        (hs ++ kept ((k, v) ∷ []))
        (on_headers_complete (reading lh hs k v last) parser)
unfolding on_headers_complete save_current_header
complete-reading lh hs [] v last parser h = absurd (h refl)
complete-reading lh hs (c ∷ k) [] last parser h = rw (chunked-ne parser.flags) (record {
  all_headers = sym (append-nil hs);
  same_url = refl;
  same_calls = refl;
  same_checkpoint = refl;
  no_body = refl;
  nothing_left = refl;
  length_read = refl;
  not_chunked = refl;
})
complete-reading lh hs (c ∷ k) (d ∷ v) last parser h = rw (chunked-ne parser.flags) (record {
  all_headers = refl;
  same_url = refl;
  same_calls = refl;
  same_checkpoint = refl;
  no_body = refl;
  nothing_left = refl;
  length_read = refl;
  not_chunked = refl;
})

complete-none :
    (lh : Parser) (hs : List Header) (parser : Info)
    → AfterHeaders lh parser (hs ++ []) (on_headers_complete (reading lh hs [] [] false) parser)
unfolding on_headers_complete save_current_header
complete-none lh hs parser = rw (chunked-ne parser.flags) (record {
  all_headers = sym (append-nil hs);
  same_url = refl;
  same_calls = refl;
  same_checkpoint = refl;
  no_body = refl;
  nothing_left = refl;
  length_read = refl;
  not_chunked = refl;
})

step-at_headers_complete :
    (parser : Info) (lh : Parser)
    → step (at_headers_complete parser) lh ≡ on_headers_complete lh parser
unfolding step
step-at_headers_complete parser lh = refl

-- The remaining headers and the end of the headers, behind a header `(k, v)`.
run-after :
    (lh : Parser) (parser : Info) (fs : List Pieces) (hs : List Header) (k v : Bytes)
    → k ≢ []
    → All Named fs
    → AfterHeaders lh parser
        (hs ++ kept ((k, v) ∷ map whole fs))
        (run (all_events fs ++ at_headers_complete parser ∷ []) (reading lh hs k v true))
run-after lh parser [] hs k v h named =
    rw step-at_headers_complete (complete-reading lh hs k v true parser h)
run-after lh parser (f ∷ fs) hs k v h named =
    let e : run (all_events (f ∷ fs) ++ at_headers_complete parser ∷ []) (reading lh hs k v true)
        ≡ run (all_events fs ++ at_headers_complete parser ∷ [])
            (reading lh (hs ++ (k, v) ∷ []) (whole f).0 (whole f).1 true) =
      ap (λ es. run es (reading lh hs k v true))
        (append_assoc (events_of f) (all_events fs) (at_headers_complete parser ∷ []))
      ∙ run-append (events_of f) (all_events fs ++ at_headers_complete parser ∷ [])
          (reading lh hs k v true)
      ∙ ap (run (all_events fs ++ at_headers_complete parser ∷ [])) (
          run-pieces lh (hs ++ (k, v) ∷ []) f (reading lh hs k v true)
            (step-key_next lh hs k v f.name h)) in
    subst⁻¹ (AfterHeaders lh parser (hs ++ kept ((k, v) ∷ map whole (f ∷ fs)))) e (
      subst
        (λ l. AfterHeaders lh parser l (
          run (all_events fs ++ at_headers_complete parser ∷ [])
            (reading lh (hs ++ (k, v) ∷ []) (whole f).0 (whole f).1 true)))
        (append_assoc hs ((k, v) ∷ []) (kept (map whole (f ∷ fs)))
          ∙ ap (λ l. hs ++ l) (kept-cons (k, v) (whole f) (map whole fs)))
        (run-after lh parser fs (hs ++ (k, v) ∷ []) (whole f).0 (whole f).1 named.0 named.1))
  where
    kept-cons : (a b : Header) (r : List Header) → a ∷ kept (b ∷ r) ≡ kept (a ∷ b ∷ r)
    kept-cons (x, []) b r = refl
    kept-cons (x, c ∷ y) b r = refl

-- However the names and the values are cut into pieces, the headers are put together in order: of
-- each the handler finds what stands in the end where its first piece was, that one not being empty,
-- and copies of the other pieces behind it. The last one is left out if its value is empty, and any
-- other is kept. No request is taken for a chunked one, whatever the flags are.
pub run-headers :
    (lh : Parser) (parser : Info) (hs : List Header) (fs : List Pieces)
    → All Named fs
    → AfterHeaders lh parser
        (hs ++ kept (map whole fs))
        (run (all_events fs ++ at_headers_complete parser ∷ []) (reading lh hs [] [] false))
run-headers lh parser hs [] named = rw step-at_headers_complete (complete-none lh hs parser)
run-headers lh parser hs (f ∷ fs) named =
    let e : run (all_events (f ∷ fs) ++ at_headers_complete parser ∷ []) (reading lh hs [] [] false)
        ≡ run (all_events fs ++ at_headers_complete parser ∷ [])
            (reading lh hs (whole f).0 (whole f).1 true) =
      ap (λ es. run es (reading lh hs [] [] false))
        (append_assoc (events_of f) (all_events fs) (at_headers_complete parser ∷ []))
      ∙ run-append (events_of f) (all_events fs ++ at_headers_complete parser ∷ [])
          (reading lh hs [] [] false)
      ∙ ap (run (all_events fs ++ at_headers_complete parser ∷ []))
          (run-pieces lh hs f (reading lh hs [] [] false) (step-key lh hs [] [] f.name)) in
    subst⁻¹ (AfterHeaders lh parser (hs ++ kept (map whole (f ∷ fs)))) e
      (run-after lh parser fs hs (whole f).0 (whole f).1 named.0 named.1)
