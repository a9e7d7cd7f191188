-- ===== src/Lib.antt =====
-- Freenote probe: a daemon that fetches tasks from a dispatch server, performs them (HTTP, DNS and
-- ICMP measurements) and sends the results to a collection server. The text of a server's answer is
-- a URL string of name=value pairs (src/lib/nv_pair.c), whose values are URL-encoded
-- (src/urlencode.c, src/urldecode.c). Each pair becomes a task (src/lib/dispatch.c) in a table of
-- 15 slots (src/lib/task.c); the work loop (src/work.c) starts the tasks of the table, the URL of
-- an HTTP task is taken apart by src/url-parse.c, its host is looked up in the cache of
-- src/net-modules/dns.c, the components of a page are found by src/url-extract.c, the cookies of
-- its answers are kept by src/lib/cookie.c, times are computed by src/p_time.c, the options come
-- from the command line (src/options.c) and a file (src/lib/config_parse.c), and finished tasks
-- leave the table for the collection server.
--
-- Files:
--   Base            numbers, tests, lists and the integers that the parts share.
--   CString         the C string functions that the code calls, over byte lists.
--   UrlCode         src/urlencode.c and src/urldecode.c: urlencode_dup, urldecode_dup.
--   NvPair          src/lib/nv_pair.c: nv_list_init, nv_list_insert, nv_list_to_string,
--                   nv_urlstring_to_list, nv_hash.
--   Clock           src/p_time.c: time_difference, time_sum, time_ms.
--   Task/Types      src/lib/task.h, and the searches and the initialisation of src/lib/task.c.
--   Task/Queue      task_add, get_task, get_completed, get_task_id, update_task, valid_task.
--   Task/Describe   nv_to_task.
--   Task/Status     task_set_status and mark_impossible.
--   Task/Text       task_to_s.
--   Url             src/url-parse.c: url_parse and its parts.
--   Cookie          src/lib/cookie.c: parse_cstring, cookies_to_s, cookies_strlen, cookies_strdup.
--   Work            src/work.c: process_tasks and the handlers of the kinds of tasks.
--   Dispatch        src/lib/dispatch.c: the end of dispatch_getwork, from a received list to tasks.
--   Proto           src/lib/proto.c: proto_errno and proto_error.
--   Dispatch/CheckIn  dispatch_init and the end of dispatch_checkin; save_dispatch_key of
--                   src/crypt/dsa/pdsa.c; collection_init of src/lib/collection.c.
--   FileMan         src/lib/fileman.c: the files below the base directory, and the team file.
--   Main            src/main.c: mainloop and mainiter.
--   Collection      src/lib/collection.c: the list of finished tasks that collection_report sends.
--   Recurse         src/net-modules/http-recurse.c: http_recurse, over requests as a parameter.
--   Ran             the results of calls that may end the program.
--   Dns             src/net-modules/dns.c: the cache, and resolve in Dns/Resolver.
--   Options         src/options.c: the table in Options/Rows, the command line in
--                   Options/CommandLine, the help text in Options/Usage, and the rest.
--   Config          src/lib/config_parse.c: read_config.
--   Extract         src/url-extract.c, and regex_iterate of src/p_regex.c.
--   HeaderParse     src/header-parse.c: get_header_dup and is_html.
--   Http            src/net-modules/http.c: the loops that send and receive. Http/Request: a new
--                   request, and url2http of src/url-parse.c. Http/Connect, Http/Text, Http/Path:
--                   connecting, the texts of requests, http_repath and http_req_dup. Http/Chunked
--                   and Http/Body: the bodies of responses. Http/World: the surroundings of
--                   a request; Http/Response: http_get, http_post_str, http_handle_response and
--                   http_handle_redirect.
--   Icmp            src/net-modules/icmp.c: the checksum, and the test of an arriving packet.
--   Tests           runs on concrete inputs, and an instance of each theorem with conditions.
-- The other files below these hold lemmas and theorems, named for what they prove.
--
-- The state of a component is a value: the static array of src/lib/task.c is a list of 15 tasks
-- that each operation takes and returns, and a list of pairs is a record with its array of slots. A
-- C string is the list of its bytes before the terminator, a pointer into it is the suffix from
-- there on, and a null pointer is `none`. What C leaves undefined, such as a read or a write
-- outside a buffer, is a result of its own (`none`, or `fault`), so a theorem that a function
-- returns `some` also says that it stays inside its buffers. A read behind the terminator of a
-- string counts as such a fault even where the buffer happens to be longer than the string.
--
-- Fuel: `urlstring_loop` takes the length of the text, and each of its rounds takes at least one
-- byte of it. `mark_impossible` takes the depth of its recursion, which C does not bound: a ranking
-- of the ids below their parents bounds it. `parse_loop` of the cookies takes one more than the
-- length of the text, `process_tasks` one more than the number of tasks that wait, and `gather` 16
-- rounds for the 15 slots of the table, and `trim` of the URLs one more than the lengths that it
-- can walk. `read_lines` of a header takes two more than its length, and each round takes a line.
-- `digits` takes the number that it prints. `unchunk_loop` takes one more
-- than the length of the body, and `scan` two more than that of its buffer, as each round moves on
-- by a byte at least. `http_handle_response` takes the number of responses that may be nested, which
-- is one more than the limit of redirects.
--
-- Numbers: `int` and `time_t` are integers of unbounded size, `unsigned` sums in `NvList` wrap at
-- 2^32. The clock is an argument wherever the code reads it.
--
-- The network modules are a parameter of Work, the record `Network` of the calls that src/work.c
-- makes, each of which may also fail to return.
--
-- The asynchronous resolver library, regexec, and the C library's address functions are parameters
-- too.
--
-- Not modelled: http_post, the sockets of the ICMP module, the building and sending of the
-- messages to the servers and their signatures, signals and the daemon, logging, memory
-- allocation (which fails only for a negative size), and the copy of libares.
pub mod Base
pub mod CString
pub mod UrlCode
pub mod NvPair
pub mod Clock
pub mod Cookie
pub mod Task
pub mod Url
pub mod Collection
pub mod Config
pub mod Dispatch
pub mod Dns
pub mod Extract
pub mod FileMan
pub mod HeaderParse
pub mod Http
pub mod Icmp
pub mod Main
pub mod Options
pub mod Proto
pub mod Ran
pub mod Recurse
pub mod Work
pub mod Tests
