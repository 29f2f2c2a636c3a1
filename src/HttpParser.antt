-- ===== src/HttpParser.antt =====
-- src/ac-connect/ac_http_parser.c: the callbacks that llhttp makes, as events, and the calls that
-- they make of the user's callbacks. llhttp itself is not modelled: a run is any list of events.
pub mod Headers
pub mod Body
pub mod Request
pub mod Chunked
use Prim.Native.Nat.{bit_and}
use another_c_library.Prelude.{
  ℕ, ◌+◌, ◌-◌, Bool, true, false, not, ◌&&◌, List, [], ◌∷◌, ◌++◌, ltb, ◌==◌, ◌≡◌, if◌then◌else◌,
  Bytes, length, take,
}

abbrev pub Header : Type 0
Header = Bytes × Bytes

-- A call of one of the user's callbacks, with what it can read of the message.
pub data Call : Type 0 where
  handled : Bytes → List Header → Bytes → Call
  chunk_encoding : Call
  chunk : Bytes → Call
  chunk_complete : Bytes → Call

-- `at` and `length` of a callback: the bytes that stand there during the call, and those that stand
-- there when they are next looked at, by a later callback or by the user's handler. They are others
-- if the caller has read into the same memory meanwhile, as ac_serve.c and ac_client.c do.
pub record Piece : Type 0 where
  pub bytes : Bytes
  pub later : Bytes
  pub same_length : length later ≡ length bytes

-- ac_llhttp_ext_t. A `uv_buf_t` is the bytes that are found where it points to when it is next
-- looked at, in the pool or in the data that llhttp was given; of `body` as much as has been filled
-- in. `checkpoint` says whether the
-- checkpoint has been taken, and `wild_reset` whether the pool has been reset to one that had not.
pub record Parser : Type 0 where
  pub headers : List Header
  pub url : Bytes
  pub body : Bytes
  pub body_size : ℕ
  pub content_length : ℕ
  pub http_major : ℕ
  pub http_minor : ℕ
  pub method : ℕ
  pub status_code : ℕ
  pub keep_alive : Bool
  pub chunked : Bool
  pub status : Bytes
  pub header_key : Bytes
  pub header_value : Bytes
  pub last_was_value : Bool
  pub body_left : ℕ
  pub body_terminated : Bool
  pub checkpoint : Bool
  pub wild_reset : Bool
  pub calls : List Call

-- What the callbacks read of `llhttp_t`; `keeps_alive` is the answer of llhttp_should_keep_alive.
pub record Info : Type 0 where
  pub content_length : ℕ
  pub http_major : ℕ
  pub http_minor : ℕ
  pub method : ℕ
  pub status_code : ℕ
  pub flags : ℕ
  pub keeps_alive : Bool

pub data Event : Type 0 where
  at_message_begin : Event
  at_status : Piece → Event
  at_url : Piece → Event
  at_header_key : Piece → Event
  at_header_value : Piece → Event
  at_headers_complete : Info → Event
  at_body : Piece → Event
  at_chunk_header : ℕ → Event
  at_chunk_complete : Event
  at_message_complete : Event

-- ac_http_parser_init
abbrev pub initial : Parser
initial = record {
  headers = [];
  url = [];
  body = [];
  body_size = 0;
  content_length = 0;
  http_major = 0;
  http_minor = 0;
  method = 0;
  status_code = 0;
  keep_alive = false;
  chunked = false;
  status = [];
  header_key = [];
  header_value = [];
  last_was_value = false;
  body_left = 0;
  body_terminated = false;
  checkpoint = false;
  wild_reset = false;
  calls = [];
}

-- ac_http_parser_clear
unfoldable pub clear : Parser → Parser
clear h = record initial { checkpoint = h.checkpoint; wild_reset = h.wild_reset; calls = h.calls }

unfoldable pub save_current_header : Parser → Parser
save_current_header lh = record lh { headers = lh.headers ++ (lh.header_key, lh.header_value) ∷ [] }

abbrev is_empty : Bytes → Bool
is_empty [] = true
is_empty (c ∷ b) = false

-- A piece is copied, behind the pieces before it; the first one is only pointed to.
unfoldable pub set_buf : Bytes → Piece → Bytes
set_buf b piece = if not (is_empty b) then b ++ piece.bytes else piece.later

unfoldable pub on_status : Parser → Piece → Parser
on_status lh piece = record lh { status = set_buf lh.status piece }

unfoldable pub on_header_key : Parser → Piece → Parser
on_header_key lh piece =
    let next =
      (if lh.last_was_value && not (is_empty lh.header_key)
        then record (save_current_header lh) { header_key = []; header_value = [] }
        else lh) in
    record next {
      header_key = set_buf next.header_key piece;
      last_was_value = false;
      header_value = [];
    }

unfoldable pub on_header_value : Parser → Piece → Parser
on_header_value lh piece = record lh {
  header_value = set_buf lh.header_value piece;
  last_was_value = true;
}

-- The first piece is copied, by copy_buf.
unfoldable pub on_url : Parser → Piece → Parser
on_url lh piece = record lh { url = if is_empty lh.url then piece.bytes else set_buf lh.url piece }

-- A body that comes whole is only pointed to; of one that comes in pieces each is copied.
unfoldable pub on_body : Parser → Piece → Parser
on_body lh piece =
    let n = length piece.bytes in
    if lh.body_size == 0
    then if ltb n lh.content_length
      then record lh {
        body = piece.bytes;
        body_size = lh.content_length;
        body_left = lh.content_length - n;
        body_terminated = true;
      }
      else record lh {
        body = piece.later;
        body_size = lh.content_length;
        body_left = 0;
        body_terminated = false;
      }
    else if ltb n lh.body_left
    then record lh { body = lh.body ++ piece.bytes; body_left = lh.body_left - n }
    else record lh { body = lh.body ++ take lh.body_left piece.bytes; body_left = 0 }

abbrev pub f_chunked : ℕ
f_chunked = 0x8

-- The zeros that are written behind the names and the values, to end them as C strings, are left
-- out: they stand on what follows a name or a value in the data, or in a block of the pool.
unfoldable pub on_headers_complete : Parser → Info → Parser
on_headers_complete lh parser =
    let saved =
      (if not (is_empty lh.header_key) && not (is_empty lh.header_value)
        then save_current_header lh
        else lh) in
    let chunked = bit_and parser.flags f_chunked == 1 in
    let read = record saved {
      header_key = [];
      header_value = [];
      body_size = 0;
      body_left = 0;
      content_length = parser.content_length;
      http_major = parser.http_major;
      http_minor = parser.http_minor;
      method = parser.method;
      status_code = parser.status_code;
      keep_alive = parser.keeps_alive;
      chunked = chunked;
    } in
    if chunked
    then record read { calls = read.calls ++ chunk_encoding ∷ []; checkpoint = true }
    else read

-- The bytes that a callback finds in the body.
abbrev pub body_bytes : Parser → Bytes
body_bytes lh = take lh.body_size lh.body

abbrev call : Parser → Call → Parser
call lh c = record lh { calls = lh.calls ++ c ∷ [] }

unfoldable pub on_chunk_header : Parser → ℕ → Parser
on_chunk_header lh content_length =
    let reset = record lh {
      chunked = true;
      content_length = content_length;
      body_left = 0;
      body_terminated = false;
      body_size = 0;
      body = [];
      wild_reset = if lh.checkpoint then lh.wild_reset else true;
    } in
    if content_length == 0 then call reset (chunk_complete []) else reset

-- The byte behind the body is 0 during the call, and then as before.
unfoldable pub on_message_complete : Parser → Parser
on_message_complete lh =
    if not lh.chunked
    then call lh (handled lh.url lh.headers (body_bytes lh))
    else call lh (chunk_complete (body_bytes lh))

unfoldable pub on_chunk_complete : Parser → Parser
on_chunk_complete lh =
    let called =
      (if not (lh.body_size == 0) && lh.chunked then call lh (chunk (body_bytes lh)) else lh) in
    record called { body_size = 0 }

unfoldable pub step : Event → Parser → Parser
unfolding save_current_header set_buf on_status on_header_key on_header_value on_url on_body
    on_headers_complete on_chunk_header on_message_complete on_chunk_complete
step at_message_begin lh = lh
step (at_status piece) lh = on_status lh piece
step (at_url piece) lh = on_url lh piece
step (at_header_key piece) lh = on_header_key lh piece
step (at_header_value piece) lh = on_header_value lh piece
step (at_headers_complete parser) lh = on_headers_complete lh parser
step (at_body piece) lh = on_body lh piece
step (at_chunk_header content_length) lh = on_chunk_header lh content_length
step at_chunk_complete lh = on_chunk_complete lh
step at_message_complete lh = on_message_complete lh

abbrev pub run : List Event → Parser → Parser
run [] lh = lh
run (e ∷ es) lh = run es (step e lh)
