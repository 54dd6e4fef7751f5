-- ===== src/Lib.antt =====
-- A verification library for the swoole async-ext extension: the asynchronous MySQL client, the
-- file functions, the DNS resolver, the memory-mapped streams, the memory pools, the string
-- buffer and the ring queue.
--
-- The program. The extension offers PHP classes on top of the swoole core. Most of its logic is
-- the MySQL client (swoole_mysql.cc, swoole_mysql_async.h): the class packs a request into a
-- buffer and hands it to the reactor; what arrives is collected in a string, and
-- swoole_mysql_onResponse calls mysql_response, a state machine that can stop after any packet
-- and be called again, until it has taken the answer apart into a result for the callback.
-- Before that swoole_mysql_onHandShake answers the server's greeting and what it asks for until
-- it knows whether the client is connected. mysql_is_over, mysql_prepare_pack and
-- mysql_write_lcb are offered, but called nowhere in the extension. The file functions of
-- swoole_async.cc give reads and writes to the thread pool of the core; aio_onFileCompleted runs
-- in the event loop when one is done, calls the PHP callback, and goes on reading or closes the
-- file. The DNS resolver of the same file sends a question by UDP and hands the addresses of the
-- answer to the request that waits for it. A stream of swoole_mmap.cc reads, writes and seeks in
-- a file that is mapped into memory. The ring queue (swoole_ringqueue.cc) is a bounded queue of
-- PHP values. The object table keeps, for the handle of a PHP object, the pointers to what
-- belongs to it. A memory pool (swoole_memory_pool.cc) hands out slices of memory and outlives
-- its PHP object until the last of them has gone; a buffer (swoole_buffer.cc) is a text that
-- grows, with methods to read and change it.
--
-- Which file models what.
-- Prelude and its children: shared names, Boolean tests, lists, integers. No code is modelled.
-- Str: memory as a function from addresses to chars, and the fields of swString; Str/Holds: what
--   a stretch of memory holds.
-- RingQueue: struct swRingQueue, swRingQueue_init, swRingQueue_push, swRingQueue_pop,
--   swRingQueue_count and the constructor; RingQueue/Inv the invariant, RingQueue/Refine the
--   queue.
-- Mysql/Wire: the number macros, mysql_length_coded_binary, mysql_write_lcb, mysql_pack_length,
--   mysql_ensure_packet; Wire/Numbers and Wire/Lcb their lemmas.
-- Mysql/Field: mysql_decode_field; Field/Safe and Field/Encode its proofs.
-- Mysql/Client: mysql_client, mysql_response_t, mysql_statement.
-- Mysql/Packet: mysql_read_eof, mysql_read_err, mysql_read_ok, mysql_parse_prepare_result.
-- Mysql/Columns: mysql_read_params, mysql_read_columns.
-- Mysql/Over: mysql_is_over; Over/Split cuts a stream into packets, Over/Complete and Over/Final
--   say when an answer is over.
-- Mysql/BigData: mysql_decode_big_data, with BigData/Join.
-- Mysql/Rows and its children: mysql_decode_row, mysql_decode_row_prepare, the date formats;
--   Rows/Encode the rows of the protocol.
-- Mysql/Response: mysql_columns_free, mysql_read_rows, mysql_response; Response/Total,
--   Response/Single and Response/ResultSet its proofs.
-- Mysql/Query: mysql_request_pack, mysql_prepare_pack, mysql_query, the methods query, begin,
--   commit and rollback; Query/Deliver: swoole_mysql_onResponse; Query/Request and
--   Query/Transaction their proofs.
-- Mysql/Auth: mysql_get_result, mysql_auth_encrypt_dispatch, mysql_auth_switch,
--   mysql_parse_auth_signature; Auth/Greeting: mysql_handshake; Auth/Rsa: mysql_parse_rsa;
--   Auth/Connect: swoole_mysql_onHandShake, swoole_mysql_onConnect; Auth/Digest, Auth/Written,
--   Auth/Framing, Auth/Outcome and Auth/Early their proofs.
-- Files: handler_read, handler_write, aio_onFileCompleted; Files/Request: swoole_async_read,
--   swoole_async_write, swoole_async_readfile, swoole_async_writefile; Files/Round: one round of
--   a read; Files/Chunks: a read from its start to its end; Files/Table, Files/Refcount and its
--   children: the table open_write_files.
-- Dns/Name: domain_encode, domain_decode; Name/Encode, Name/Rounds, Name/Decode and
--   Name/Harmless their proofs.
-- Dns/Packet: the parsing in swDNSResolver_onReceive; Packet/Row and Packet/Address its proofs.
-- Dns/Resolver: swDNSResolver_request, swDNSResolver_onReceive; Resolver/Idle, Resolver/Send and
--   Resolver/Deliver their proofs.
-- Mmap: the stream operations and open of swoole_mmap.cc; Mmap/Cursor, Mmap/Seek and Mmap/Refine
--   the file that it refines.
-- Objects: the object table of swoole_async.cc and php_swoole_async.h; Objects/Grow: the size
--   that it grows to; Objects/Refine: the table against a function from handles to pointers.
-- Pool: swoole_memory_pool.cc; Pool/Life, Pool/Gone and Pool/Trace: the life of a pool and of
--   its slices; Pool/Blocks and Pool/Run: the slices as blocks of bytes.
-- Buffer: swoole_buffer.cc; Buffer/Documented: the methods of swString; Buffer/Places,
--   Buffer/Reads and Buffer/Writes: each method; Buffer/Text, Buffer/Met and Buffer/Refine: the
--   text that it is; Buffer/Faults: where it is not.
-- RingQueue/Tests, Mysql/Tests, Dns/Tests, Files/Tests, Mmap/Tests, Objects/Tests, Pool/Tests,
--   Buffer/Tests: runs on concrete data.
--
-- How code is rendered. A C function is a function from the client before to the client after
-- and the value returned. An integer of w bits is a natural number below 2 ^ w with its
-- wrap-around written out; a signed one is its bit pattern where its sign matters. Undefined
-- behaviour of C is `none`, `overrun` or `undefined`, never a made-up value. Pointers into the
-- buffer are addresses in its memory.
--
-- Fuel. mysql_response gets five rounds, since each goes on to a later state. The loop of
-- mysql_is_over gets one round for each byte and one more, since a packet has a header. So do
-- the loops over the rows and over the packets of a long value, where running out is `none` or
-- `overrun`. The outer loop of domain_decode gets one round for each byte of its string and one
-- more. The loop over a compressed name need not end, so its fuel is an argument, and running
-- out is `none`. The loop of swoole_get_new_size gets one round more than the handle, since each
-- round adds to the size. An argument too is the fuel of the rounds of a read, for which the
-- bytes left and one more are enough.
--
-- Parameters. The conversions of the C library (strtol and others), the rounding of PHP,
-- add_assoc_ulong_safe, the constant SW_CONTINUE, the methods of swString and the allocator
-- belong to other programs. So do the answers of open, fstat, flock, pread, pwrite and mmap,
-- those of the thread pool, the reactor and the sockets, the hash functions and RSA, what a PHP
-- callback returns, the sizes of the core's buffers, the pools and the shared memory of the
-- core, the room in a block of memory, and what sprintf prints. The documented behaviour of the
-- methods of swString, of the allocator, of the hash functions and of pread is a hypothesis
-- where a theorem needs it.
--
-- Not modelled: the PHP glue of the MySQL client; the HTTP client and the TCP client; channels
-- and message queues, which only call the swoole core; the PHP functions around the DNS
-- resolver; and the handlers of swoole_async.cc for whole files, which no function of it uses.
pub mod Prelude
pub mod RingQueue
pub mod Str
pub mod Mysql
pub mod Mmap
pub mod Dns
pub mod Files
pub mod Objects
pub mod Pool
pub mod Buffer
