-- ===== src/HttpParser/Request.antt =====
-- A whole message, from the events that llhttp makes of it to the call of the user's handler.
use another_c_library.Prelude.{
  List, [], ◌∷◌, ◌++◌, ◌≡◌, arith, refl, sym, ap, ap₂, ◌∙◌, All, map, length, false,
}
use another_c_library.HttpParser.{
  Parser, Piece, handled, Event, at_message_begin, at_url, at_headers_complete, at_body,
  at_message_complete, Info, clear, on_message_complete, step, run, body_bytes,
}
use another_c_library.HttpParser.Headers.{
  given, Stays, AllStays, given_whole, whole-given, run-append, run-urls, Pieces, all_events, Named,
  kept, run-headers,
}
use another_c_library.HttpParser.Body.{run-bodies}

-- The events of a message with an address in the pieces `us`, the headers `fs` and a body in the
-- pieces `bs`.
abbrev pub request : List Piece → List Pieces → Info → List Piece → List Event
request us fs parser bs =
    let heads = all_events fs ++ at_headers_complete parser ∷ [] in
    let ends = map at_body bs ++ at_message_complete ∷ [] in
    at_message_begin ∷ (map at_url us ++ (heads ++ ends))

complete :
    (s : Parser)
    → s.chunked ≡ false
    → (run (at_message_complete ∷ []) s).calls
      ≡ s.calls ++ handled s.url s.headers (body_bytes s) ∷ []
unfolding step on_message_complete
complete s h = ground arith

run-end :
    (s : Parser) (bs : List Piece)
    → s.body_size ≡ 0
    → s.chunked ≡ false
    → length (given bs) ≡ s.content_length
    → All Stays bs
    → (run (map at_body bs ++ at_message_complete ∷ []) s).calls
      ≡ s.calls ++ handled s.url s.headers (given bs) ∷ []
run-end s bs z c e stay =
    let t = run (map at_body bs) s in
    let f = run-bodies s bs z e stay in
    ap (λ q. q.calls) (run-append (map at_body bs) (at_message_complete ∷ []) s)
    ∙ complete t (f.chunked_kept ∙ c)
    ∙ ap₂ (λ l c. l ++ c ∷ []) f.calls_kept
        (ap₂ (λ u r. handled u t.headers r) f.url_kept f.found
          ∙ ap (λ l. handled s.url l (given bs)) f.headers_kept)

step-at_message_begin : (s : Parser) → step at_message_begin s ≡ s
unfolding step
step-at_message_begin s = refl

-- A cleared parser that is given a message whose body has the announced length makes one call, the
-- user's handler, with the whole address, the headers that are kept and the whole body, however
-- each of them is cut into pieces, if the data of the headers and of the body stay as they are until
-- they are looked at.
pub run-request :
    (lh : Parser) (us : List Piece) (fs : List Pieces) (parser : Info) (bs : List Piece)
    → All Named fs
    → All AllStays fs
    → All Stays bs
    → length (given bs) ≡ parser.content_length
    → (run (request us fs parser bs) (clear lh)).calls
      ≡ lh.calls ++ handled (given us) (kept (map given_whole fs)) (given bs) ∷ []
unfolding clear
run-request lh us fs parser bs named stay stay_body e =
    let c = record (clear lh) { url = given us } in
    let heads = all_events fs ++ at_headers_complete parser ∷ [] in
    let ends = map at_body bs ++ at_message_complete ∷ [] in
    let s = run heads c in
    let h = run-headers c parser [] fs named in
    ap (λ q. q.calls)
      (ap (run (map at_url us ++ (heads ++ ends))) (step-at_message_begin (clear lh))
        ∙ run-append (map at_url us) (heads ++ ends) (clear lh)
        ∙ ap (run (heads ++ ends)) (run-urls us (clear lh))
        ∙ run-append heads ends c)
    ∙ run-end s bs h.no_body h.not_chunked (e ∙ sym h.length_read) stay_body
    ∙ ap₂ (λ l q. l ++ q ∷ []) h.same_calls
        (ap₂ (λ u r. handled u r (given bs)) h.same_url
          (h.all_headers ∙ ap kept (whole-given fs stay)))
