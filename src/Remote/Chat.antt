-- ===== src/Remote/Chat.antt =====
-- The chat client: a stream of events is cut into lines, and each event is taken into the result.
-- A number's type and its conversions, `strtod` and `printf`'s `%d` are parameters, as is what the
-- connection delivers. The strings of a parsed value are C strings: a byte 0 ends them.
pub mod Client
pub mod Printable
pub mod Stream
pub mod Told
pub mod Kept
use preon_star.Base.{
  Bool, Bytes, List, Option, [], codes, false, if◌then◌else◌, length, ltb, none, replicate, some,
  suc, take, true, zero, ℕ, ◌++◌, ◌-◌, ◌==◌, ◌||◌, ◌∷◌,
}
use preon_star.Remote.Json.{
  Kids, Value, array, boolean, jv_at, jv_get, kid, nil, number, object, string,
}

-- up to the first byte 0
unfoldable pub c_string : Bytes → Bytes
c_string [] = []
c_string (c ∷ s) = let rest = c_string s in if c == 0 then [] else c ∷ rest

-- `p36_remote_call`; NULL is `none`
pub record Call : Type 0 where
  pub id : Option Bytes
  pub name : Option Bytes
  pub arguments : Option Bytes

abbrev pub zero_call : Call
zero_call = record { id = none; name = none; arguments = none }

-- `append_str`
abbrev pub append_str : Option Bytes → Bytes → Option Bytes
append_str none s = some s
append_str (some t) s = some (t ++ s)

-- `p36_remote_result`; `D` are the doubles and `I` the ints
pub record Result (D I : Type 0) : Type 0 where
  pub content : Option Bytes
  pub reasoning : Option Bytes
  pub calls : List Call
  pub finish : Bytes
  pub incomplete_tool : Bool
  pub prompt_tokens : I
  pub completion_tokens : I
  pub cached_tokens : I
  pub reasoning_tokens : I
  pub prefill_ms : D
  pub decode_ms : D
  pub err : Bytes

-- the result, what `on_delta` was called with, and `done`
pub record Chat (D I : Type 0) : Type 0 where
  pub result : Result D I
  pub deltas : List (Bool × Bytes)
  pub done : Bool

-- `chat_sink`
pub record Sink (D I : Type 0) : Type 0 where
  pub chat : Chat D I
  pub line : Bytes
  pub whole_body : Bytes

-- a reader of a value, for one that may be NULL
abbrev pub get : {D : Type 0} → Option (Value D) → Bytes → Option (Value D)
get none key = none
get (some v) key = jv_get v key

-- a string's bytes
abbrev pub string_of : {D : Type 0} → Option (Value D) → Option Bytes
string_of (some (string s)) = some (c_string s)
string_of _ = none

-- `jnum`, and the cast of what it gives
abbrev pub number_or : {D A : Type 0} → (D → A) → Option (Value D) → A → A
number_or cast (some (number d)) old = cast d
number_or cast _ old = old

abbrev pub otherwise : {D : Type 0} → Option (Value D) → Option (Value D) → Option (Value D)
otherwise none v = v
otherwise (some u) v = some u

-- at most `n` bytes of a text, where there is one
abbrev pub take_or : ℕ → Option Bytes → Bytes → Bytes
take_or n none old = old
take_or n (some s) old = take n s

abbrev pub is_true : {D : Type 0} → Option (Value D) → Bool
is_true (some (boolean b)) = b
is_true _ = false

abbrev pub kids_of : {D : Type 0} → Option (Value D) → Kids D
kids_of (some (array ks)) = ks
kids_of (some (object ks)) = ks
kids_of _ = nil

-- `err` and `finish` hold 299 and 39 bytes
abbrev pub server_error : Bytes → Bytes
server_error s = take 299 (codes "server error: " ++ s)

abbrev pub or_else : Option Bytes → Bytes → Bytes
or_else none s = s
or_else (some t) s = t

-- `call_slot`: the calls, long enough to hold the index, which is none of 64 or more
unfoldable pub call_slot : List Call → Option ℕ → Option (List Call)
call_slot calls none = none
call_slot calls (some i) =
    if ltb 63 i then none else some (calls ++ replicate (suc i - length calls) zero_call)

unfoldable pub change_call : ℕ → (Call → Call) → List Call → List Call
change_call i f [] = []
change_call zero f (k ∷ ks) = f k ∷ ks
change_call (suc i) f (k ∷ ks) = k ∷ change_call i f ks

abbrev pub set_id : Option Bytes → Call → Call
set_id none k = k
set_id (some s) k = record k { id = some s }

abbrev pub add_name : Option Bytes → Call → Call
add_name none k = k
add_name (some []) k = k
add_name (some (c ∷ s)) k = record k { name = append_str k.name (c ∷ s) }

abbrev pub add_arguments : Option Bytes → Call → Call
add_arguments none k = k
add_arguments (some s) k = record k { arguments = append_str k.arguments s }

module _ {D I : Type 0} (to_int : D → I) (to_index : D → Option ℕ) where
  -- `take_usage`
  unfoldable pub take_usage : Result D I → Option (Value D) → Result D I
  unfolding jv_get
  take_usage r none = r
  take_usage r (some u) =
      let int_at : Option (Value D) → Bytes → I → I =
        λ v key old. number_or to_int (get v key) old in
      let double_at : Bytes → D → D =
        λ key old. number_or (λ (d : D). d) (get (jv_get u (codes "timings")) key) old in
      record r {
        prompt_tokens = int_at (some u) (codes "prompt_tokens") r.prompt_tokens;
        completion_tokens = int_at (some u) (codes "completion_tokens") r.completion_tokens;
        cached_tokens =
            int_at (jv_get u (codes "prompt_tokens_details")) (codes "cached_tokens")
              r.cached_tokens;
        reasoning_tokens =
            int_at (jv_get u (codes "completion_tokens_details")) (codes "reasoning_tokens")
              r.reasoning_tokens;
        prefill_ms = double_at (codes "prefill_ms") r.prefill_ms;
        decode_ms = double_at (codes "decode_ms") r.decode_ms;
      }

  -- `put_text`; reasoning is `true`
  unfoldable pub put_text : Chat D I → Bool → Option Bytes → Chat D I
  put_text c kind none = c
  put_text c kind (some []) = c
  put_text c true (some (x ∷ s)) =
      let r = c.result in
      record c {
        result = record r { reasoning = append_str r.reasoning (x ∷ s) };
        deltas = c.deltas ++ (true, x ∷ s) ∷ [];
      }
  put_text c false (some (x ∷ s)) =
      let r = c.result in
      record c {
        result = record r { content = append_str r.content (x ∷ s) };
        deltas = c.deltas ++ (false, x ∷ s) ∷ [];
      }

  -- one tool call, in its slot
  unfoldable pub put_call : Result D I → ℕ → Value D → Option (List Call) → Result D I
  unfolding change_call jv_get
  put_call r i tc none =
      if length r.err == 0 then record r { err = codes "server sent too many tool calls" } else r
  put_call r i tc (some calls) =
      let fn = jv_get tc (codes "function") in
      let change : Call → Call = λ k. add_arguments (string_of (get fn (codes "arguments"))) (
        add_name (string_of (get fn (codes "name")))
          (set_id (string_of (jv_get tc (codes "id"))) k)) in
      record r { calls = change_call i change calls }

  abbrev pub index_of : Value D → ℕ → Option ℕ
  index_of tc i = number_or to_index (jv_get tc (codes "index")) (some i)

  abbrev pub index_or_zero : Option ℕ → ℕ
  index_or_zero none = 0
  index_or_zero (some i) = i

  -- the loop over the tool calls, at `i`
  unfoldable pub take_calls : Result D I → ℕ → Kids D → Result D I
  unfolding put_call call_slot
  take_calls r i nil = r
  take_calls r i (kid k tc ks) =
      let index = index_of tc i in
      take_calls (put_call r (index_or_zero index) tc (call_slot r.calls index)) (suc i) ks

  -- the delta's reasoning, under either of its names
  abbrev pub reasoning_of : Value D → Option Bytes
  reasoning_of d =
      string_of (otherwise (jv_get d (codes "reasoning_content")) (jv_get d (codes "reasoning")))

  abbrev pub put_texts : Chat D I → Value D → Chat D I
  put_texts c d =
      put_text (put_text c false (string_of (jv_get d (codes "content")))) true (reasoning_of d)

  -- the delta, or the message
  unfoldable pub take_delta : Chat D I → Option (Value D) → Chat D I
  unfolding put_text take_calls
  take_delta c none = c
  take_delta c (some d) =
      let both = put_texts c d in
      record both { result = take_calls both.result 0 (kids_of (jv_get d (codes "tool_calls"))) }

  -- why the choice ended, and whether a tool call was cut
  abbrev pub with_choice : Result D I → Value D → Result D I
  with_choice r ch = record r {
    finish = take_or 39 (string_of (jv_get ch (codes "finish_reason"))) r.finish;
    incomplete_tool = is_true (jv_get ch (codes "incomplete_tool_call")) || r.incomplete_tool;
  }

  unfoldable pub take_choice : Chat D I → Option (Value D) → Chat D I
  unfolding take_delta
  take_choice c none = c
  take_choice c (some ch) =
      take_delta (record c { result = with_choice c.result ch })
        (otherwise (jv_get ch (codes "delta")) (jv_get ch (codes "message")))

  unfoldable pub take_error : Result D I → Option (Value D) → Result D I
  take_error r none = r
  take_error r (some e) =
      if length r.err == 0
      then record r {
        err = server_error (or_else (string_of (jv_get e (codes "message"))) (codes "unknown"));
      }
      else r

  abbrev pub first_of : Option (Value D) → Option (Value D)
  first_of none = none
  first_of (some v) = jv_at v 0

  -- `take_chunk`
  unfoldable pub take_chunk : Chat D I → Value D → Chat D I
  unfolding take_error take_usage take_choice
  take_chunk c j =
      let r =
        take_usage (take_error c.result (jv_get j (codes "error"))) (jv_get j (codes "usage")) in
      take_choice (record c { result = r }) (first_of (jv_get j (codes "choices")))
