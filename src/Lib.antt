-- ===== src/Lib.antt =====
-- PreonStar: the parts of the program that decide over bytes, files and budgets.
--
-- The program runs a language model on a GPU. Around the engine (p36.c) stand a server
-- (p36_server.c), an agent (p36_agent.c) and a command line (p36_cli.c), which share small components
-- in C; the agent talks to a remote server (p36_remote.c) and drives a browser (p36_web.c). This
-- library models these components: a text goes from the prompt prefix file and the chat
-- through the engine to the tool calls that the model writes; the state of the engine is kept in
-- checkpoint files, which are named by the hash of the text that they stand for; and a guard watches
-- what the model writes.
--
-- Files, and the code that they model:
-- Base: the shared tests on numbers, lists with native lengths, byte strings.
-- ToolText (p36_tool_text.h, and append_qwen_parameter of
--   src/server/server_02_parse_anthropic_image_source.inc): `escape` is the loop over a value,
--   `unescape` is p36_tool_text_unescape, `partial_escape` is p36_tool_text_partial_escape. The
--   delimiter is a parameter.
-- PromptPrefix (p36_prompt_prefix.c): `parse` is p36_prompt_prefix_parse, with one constructor of
--   `Error` for each message; PromptPrefix.Load is p36_prompt_prefix_load, with the calls of the C
--   library as the fields of a record.
-- Ssd (p36_ssd.c): the parsers of sizes, the plan of the expert cache; Ssd.Lock is the memory lock.
-- CliArgs (p36_cli_args.h): the tests of options and the expansion of `--name=value`.
-- LoopGuard (p36_loopguard.h): `text_detected` is agent_repetition_text_detected; Window is
--   agent_repetition_detector_feed; Leak is agent_action_leak_feed.
-- KvStore (p36_kvstore.c): Word, Header, Names and Sha1 are the file format and the names; Sizes and
--   Store the sizes and the policy; Files the listing of the directory and the touch of a file; Evict
--   the evictions; Find the search; Load and Hit the load of a checkpoint; Buffer is kv_buf;
--   Trailer is kv_cache_rewrite_trailer; Open opens and closes the store; Superseded is the test of an
--   entry that an incoming checkpoint makes superfluous, and the store of a continued checkpoint
--   around the write; Write is p36_kvstore_store_live_prefix_text, with the directory as a list of
--   files, the temporary file among them.
-- Remote (p36_remote.c): Request is parse_url and the request that http_do sends; Utf8 and Quote are
--   JSON strings; Json is the parser and the readers of values; Chunked is body_feed; Chat is
--   take_chunk and what it calls, Chat.Client sse_line, chat_sink_fn and p36_remote_chat. The
--   connection is the pieces that it delivers and what http_do returns.
-- Web (p36_web.c): Frame is the framing of the websocket (web_ws_send_text, web_ws_send_pong,
--   web_ws_read_message); Encode is web_base64 and web_url_encode.
-- Eval (p36_eval.c): parse_line_spec and compsec_answer_matches; Eval.Answer is the normal forms of
--   answers and answer_matches. Letter is find_answer_letter, Find is find_case_answer and
--   find_case_answer_strict with the other routines that they call; Strict is about the last.
--
-- A pointer into a text is the list of the bytes from there on, so a NUL or an end that the code tests
-- is the empty list. A result -1 or false with its outputs is `none`, and a message is a value. Words
-- of 32 and 64 bits wrap where the code can wrap. The answers of the kernel and of the C library (mmap,
-- mlock, unlink, mkdir, the files' bytes) are arguments. Doubles are a type that is a parameter, with what
-- `strtod` reads; `isalnum` is that of the C locale.
--
-- Fuel: the parser of the prefix file, the split into lines, the update of SHA-1 and the evictions
-- recurse on the number of the bytes or entries that are left, of which each round takes one at least;
-- the padding of SHA-1 has 64 rounds, and a buffer doubles its capacity at most 64 times, which is the
-- width of its type. The JSON parser makes at most two calls for a byte, so twice the bytes and two more
-- are enough; the reader of messages takes two bytes in a round.
--
-- Not modelled: the engine with its tokenizer and its sampling (floating point and a graph on the GPU),
-- which stands as a parameter where a checkpoint is loaded; the score of an eviction, a double that is
-- a parameter of the evictions, which use its order alone; logs and messages; freeing of memory;
-- sockets, the headers of a response and the browser's process; the server, the agent and the programs
-- around them.
pub mod Base
pub mod ToolText
pub mod PromptPrefix
pub mod Ssd
pub mod CliArgs
pub mod KvStore
pub mod LoopGuard
pub mod Remote
pub mod Web
pub mod Eval
