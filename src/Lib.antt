-- ===== src/Lib.antt =====
-- Another C library: buffers, strings, JSON text, HTTP messages, query strings and bit sets.
--
-- The library is a set of C modules that share the pool allocator. Text that comes from a file or a
-- connection is cut and decoded by the string routines of the pool and of the JSON module, put
-- together in buffers, and, for a server, handed over by the callbacks around llhttp and by the
-- index of a query; the search modules keep sets of document numbers. Which file models which part:
--
--   Prelude     names of the libraries, Boolean tests, lists over native numbers, single bits, and
--               outcomes (a value, a read outside of the memory, the end of the fuel)
--   Buffer      include/another-c-library/ac-core/ac_buffer.h and src/ac-core/ac_buffer.c: `store`
--               is the memory at `h->data`, `len` and `size` are the fields; each function
--               ac_buffer_x is `x`, but `assign` is _ac_buffer_set and `renew` _ac_buffer_alloc; a
--               write over the end of the memory leaves nothing of it, and an abort is `none`
--   Text        src/ac-core/ac_pool.c: Text.Split models ac_pool_split and its variants, Text.Csv
--               models ac_pool_csv_encode and ac_pool_split_csv, each with its two passes
--   Json        src/ac-json/ac_json.c and include/another-c-library/ac-json/ac_json.h: Json.Utf8
--               models unicode_to_utf8, Json.Escape models ac_json_encode, ac_json_decode and
--               ac_json_decode2; Json.Value has the values as trees, Json.Print models
--               ac_json_dump_to_buffer as the calls that it makes of the buffer, Json.Parse models
--               ac_json_parse, its labels as the modes of a machine; Json.Access models the scans of
--               arrays and objects and ac_jsono_path, Json.Numbers parse_int and its kin; Json.Text
--               is the text of a value, as a reference, and Json.Whole puts the parts together
--   HttpParser  src/ac-connect/ac_http_parser.c: `Parser` is ac_llhttp_ext_t, each callback on_x is
--               `on_x`, and `step` gives an event of llhttp to its callback; `calls` records the
--               calls of the user's callbacks; a `Piece` says what stands in the data of a callback
--               during the call, and what stands there when it is next looked at
--   Cgi         src/ac-connect/ac_cgi.c: Cgi.Decode models ac_cgi_decode; `init`, `strs` and `get`
--               model ac_cgi_init, ac_cgi_strs and the functions that convert the first value
--   BitSet      src/ac-search/ac_bit_set.c: `items` are the words, `last_mask` is the mask
--   Cursor      src/ac-search/ac_cursor.c: ac_cursor_range, and what `advance` and `advance_to` do on
--               it; Cursor.Seek is what cursors promise each other, Cursor.And and Cursor.Not model the
--               and and the not cursor over any cursors that keep to it
--   TopN        src/ac-search/ac_top_n.c: `items` is the memory from `iw` to `ep`, `p` and `split` are
--               counted from `iw`
--   InBase      src/ac-io/ac_in_base.c: `block` is what lies between `pos` and `used`, each function
--               ac_in_base_x is `x`, but `read_bytes` is ac_in_base_read; the three copies of the
--               search for a delimiter are `scan`, and InBase.Run is a sequence of calls
--   Out         src/ac-io/ac_out.c: the writer to one file; write_buffered is _ac_out_write, and
--               `out_write` ac_out_write; Out.Records is what the records are in the file
--   In          src/ac-io/ac_in.c: the reader of records from one file, over InBase; `again` is the
--               state behind ac_in_reset, and In.RoundTrip puts Out and In together
--   Merge       src/ac-io/ac_in.c: the merge of readers, ac_in_ext_x; a reader is the list of the
--               records that it still gives, and the heap of in_heap_push and in_heap_pop is a
--               function of the index; Merge.Heap and Merge.Pop show that it stays in order,
--               Merge.Held that it keeps what it holds. The tags of the readers and the blocks of
--               `active` and `r` are left out
--   Examples    runs at concrete inputs
--
-- Bytes are numbers below 256 in lists; a C string is the list without its terminator. Sums of
-- `size_t` and the 32-bit counter of a bit set wrap around as in the source. Memory from malloc and
-- from the pool is a parameter that gives any bytes of the length asked for; it never fails, as the
-- allocators of the library abort.
--
-- Loops are recursion on what is left to read, but for some on fuel: the decoder of JSON strings, the
-- parser of JSON texts and the parts of a query have one round for each byte, as each round passes
-- over one at least; the loop of Kernighan has 64 rounds for a word, as each takes one of its bits
-- away. The loops of the and and the not cursor are on fuel as well: there are 2^32 numbers, and each
-- number is looked for in each of the cursors. JSON texts are shorter than 2^32, the range of the
-- lengths in their nodes.
-- The sizes and lengths of ac_in_base are below 2^31, as they pass through `int`. A record that goes
-- over blocks is gathered on fuel: each round reads a block that is not empty. An item of the heap
-- goes up in as many rounds as its index at most, and down in as many as there are items.
--
-- Parameters: the allocator (Buffer), the text that vsnprintf prints (Buffer), the map of
-- the-macro-library under strcasecmp (Cgi), the conversions of src/ac-core/ac_conv.c (Cgi), the
-- events of llhttp, in any order (HttpParser), the number that sscanf
-- reads (Json.Access), what read and gzread give (InBase), what write takes (Out), the comparison of
-- records (Merge), and the sort of the-macro-library (TopN).
--
-- Numbers in files are little-endian, as on the machines that the library is built for.
--
-- Not modelled: llhttp, lz4, xxhash and md5, which are copies of other projects; the files behind
-- read, threads, the network and the scheduler; the allocation of the pool, its tokenizer and
-- strip_html; the erase of JSON nodes, and the sorted index and the tree of a JSON object; the
-- groups, the lists of files and the reducers of ac_in, and compressed, partitioned and sorted
-- output of ac_out; the or cursor, the query parser and the index files of the search modules.
pub mod Prelude
pub mod Text
pub mod Buffer
pub mod InBase
pub mod Out
pub mod In
pub mod Merge
pub mod Json
pub mod HttpParser
pub mod Cgi
pub mod BitSet
pub mod Cursor
pub mod TopN
pub mod Examples
