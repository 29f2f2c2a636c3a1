-- ===== src/Examples/Web.antt =====
-- src/ac-connect/ac_http_parser.c and src/ac-connect/ac_cgi.c at concrete inputs.
use another_c_library.Prelude.{
  ℕ, ◌∷◌, [], ◌++◌, ◌≡◌, refl, ap₂, Bytes, length, map, List, Bool, true, false, ◌&&◌, Option, none,
  some, ◌==◌, ==→eq, eq→==, if◌then◌else◌,
}
use another_c_library.Prelude.Outcome.{done}
use another_c_library.HttpParser.{
  Piece, Info, handled, initial, clear, run, at_headers_complete, at_chunk_header,
}
use another_c_library.HttpParser.Headers.{
  given, given_whole, Pieces, whole, kept, all_events, reading, AfterHeaders, run-headers,
}
use another_c_library.HttpParser.Request.{request, run-request}
use another_c_library.HttpParser.Chunked.{encodings, any_chunk, run-initial}
use another_c_library.Cgi.{Tree, Cgi, init, after_question, ampersand, strs, get}
use another_c_library.Cgi.Query.{chosen, parts, answer, answer_first, init-answers}

abbrev info : Info
info = record {
  content_length = 3;
  http_major = 1;
  http_minor = 1;
  method = 3;
  status_code = 0;
  flags = 8;
  keeps_alive = true;
}

-- A piece whose data stay.
abbrev stays : Bytes → Piece
stays b = record { bytes = b; later = b; same_length = refl }

abbrev host : Pieces
host = record {
  name = stays (72 ∷ []);
  names = stays (111 ∷ []) ∷ [];
  value = stays (97 ∷ []);
  values = [];
}

abbrev empty_header : Pieces
empty_header = record { name = stays (88 ∷ []); names = []; value = stays []; values = [] }

abbrev headers : List Pieces
headers = host ∷ empty_header ∷ []

abbrev url : List Piece
url = stays (47 ∷ []) ∷ stays (97 ∷ []) ∷ []

abbrev body : List Piece
body = stays (1 ∷ 2 ∷ []) ∷ stays (3 ∷ []) ∷ []

run-request_example :
    (run (request url headers info body) (clear initial)).calls
    ≡ [] ++ handled (given url) (kept (map given_whole headers)) (given body) ∷ []
run-request_example =
    run-request initial url headers info body ((λ e. cc e), ((λ e. cc e), tt))
      (((refl, (refl, tt)), (refl, tt)), (((refl, tt), (refl, tt)), tt)) (refl, (refl, tt)) refl

-- The name `Host` in two reads, the second of which is put over the first one.
abbrev overwritten : Pieces
overwritten = record {
  name = record { bytes = 72 ∷ 111 ∷ []; later = 115 ∷ 116 ∷ []; same_length = refl };
  names = stays (115 ∷ 116 ∷ []) ∷ [];
  value = stays (97 ∷ []);
  values = [];
}

run-headers_example :
    AfterHeaders initial info ([] ++ kept (map whole (overwritten ∷ empty_header ∷ []))) (
      run
        (all_events (overwritten ∷ empty_header ∷ []) ++ at_headers_complete info ∷ [])
        (reading initial [] [] [] false))
run-headers_example =
    run-headers initial info [] (overwritten ∷ empty_header ∷ []) ((λ e. cc e), ((λ e. cc e), tt))

overwritten_test : whole overwritten ≡ (115 ∷ 116 ∷ 115 ∷ 116 ∷ [], 97 ∷ [])
overwritten_test = refl

run-initial_example :
    (encodings (run (at_headers_complete info ∷ at_chunk_header 2 ∷ []) initial).calls ≡ 0)
    × ((run (at_headers_complete info ∷ at_chunk_header 2 ∷ []) initial).checkpoint ≡ false)
    × ((run (at_headers_complete info ∷ at_chunk_header 2 ∷ []) initial).wild_reset
        ≡ any_chunk (at_headers_complete info ∷ at_chunk_header 2 ∷ []))
run-initial_example = run-initial (at_headers_complete info ∷ at_chunk_header 2 ∷ [])

-- A tree as a list of keys, compared byte by byte.
abbrev equal : Bytes → Bytes → Bool
equal [] [] = true
equal [] (d ∷ k) = false
equal (c ∷ j) [] = false
equal (c ∷ j) (d ∷ k) = (c == d) && equal j k

equal-eq : (j k : Bytes) → equal j k ≡ true → j ≡ k
equal-eq [] [] e = refl
equal-eq [] (d ∷ k) e = absurd (cc e)
equal-eq (c ∷ j) [] e = absurd (cc e)
equal-eq (c ∷ j) (d ∷ k) e =
    ap₂ ◌∷◌ (==→eq c d (and_left (c == d) (equal j k) e))
      (equal-eq j k (and_right (c == d) (equal j k) e))
  where
    and_left : (a b : Bool) → (a && b) ≡ true → a ≡ true
    and_left true b e = refl
    and_left false b e = e

    and_right : (a b : Bool) → (a && b) ≡ true → b ≡ true
    and_right true b e = e
    and_right false b e = absurd (cc e)

equal_refl : (k : Bytes) → equal k k ≡ true
equal_refl [] = refl
equal_refl (c ∷ k) = rw (eq→== c c refl) (equal_refl k)

abbrev lookup : Bytes → List (Bytes × ℕ) → Option ℕ
lookup k [] = none
lookup k (e ∷ es) = if equal k e.0 then some e.1 else lookup k es

abbrev keys : Tree
keys = record {
  Root = List (Bytes × ℕ);
  empty = [];
  find = lookup;
  insert = λ k n t. (k, n) ∷ t;
  same = equal;
  same-refl = equal_refl;
  same-sym = λ j k e. rw (equal-eq j k e) (equal_refl k);
  same-trans = λ i j k e f. rw (equal-eq i j e) f;
  find-empty = λ k. refl;
  find-insert = λ j k n t e. refl;
  find-same = λ j k t e. rw (equal-eq j k e) refl;
}

-- `?a=1&b&a=%32` asked for `a`.
abbrev query : Bytes
query = 63 ∷ 97 ∷ 61 ∷ 49 ∷ 38 ∷ 98 ∷ 38 ∷ 97 ∷ 61 ∷ 37 ∷ 51 ∷ 50 ∷ []

init-answers_example :
    (t : Cgi keys) × (init keys query ≡ done t)
    × (strs keys t (97 ∷ [])
        ≡ answer keys (chosen keys (97 ∷ []) (parts ampersand (after_question keys query))))
    × (get keys (λ s d. length s) t (97 ∷ []) 5
        ≡ answer_first keys
            (λ s d. length s)
            5
            (chosen keys (97 ∷ []) (parts ampersand (after_question keys query))))
init-answers_example = init-answers keys (λ s d. length s) 5 query (97 ∷ [])
