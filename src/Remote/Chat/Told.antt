-- ===== src/Remote/Chat/Told.antt =====
-- What the client keeps of a stream, whatever the server sends.
use preon_star.Base.{
  Bool, Bytes, List, Option, [], ap, append-nil, append_assoc, arith, codes, false, if_cases,
  if_intro, length, length-append, length-replicate, ltb, ltb-false→le, none, not, refl, replicate,
  some, suc, sym, true, zero, ℕ, ◌++◌, ◌-◌, ◌==◌, ◌∙◌, ◌∷◌, ◌≡◌, ◌≤◌,
}
use preon_star.Remote.Chat.{
  Call, Chat, Result, add_arguments, add_name, append_str, call_slot, change_call, first_of, get,
  index_of, index_or_zero, kids_of, or_else, otherwise, put_call, put_text, put_texts, reasoning_of,
  set_id, string_of, take_calls, take_choice, take_chunk, take_delta, take_error, take_usage,
  with_choice, zero_call,
}
use preon_star.Remote.Json.{Kids, Value, jv_get, kid, nil}

-- the text of one kind that the caller was told
abbrev pub said : Bool → List (Bool × Bytes) → Bytes
said kind [] = []
said true ((true, s) ∷ ds) = s ++ said true ds
said true ((false, s) ∷ ds) = said true ds
said false ((true, s) ∷ ds) = said false ds
said false ((false, s) ∷ ds) = s ++ said false ds

said_last_same :
    (kind : Bool) (ds : List (Bool × Bytes)) (s : Bytes)
    → said kind (ds ++ (kind, s) ∷ []) ≡ said kind ds ++ s
said_last_same true [] s = append-nil s
said_last_same false [] s = append-nil s
said_last_same true ((true, t) ∷ ds) s =
    ap (◌++◌ t) (said_last_same true ds s) ∙ sym (append_assoc t (said true ds) s)
said_last_same true ((false, t) ∷ ds) s = said_last_same true ds s
said_last_same false ((true, t) ∷ ds) s = said_last_same false ds s
said_last_same false ((false, t) ∷ ds) s =
    ap (◌++◌ t) (said_last_same false ds s) ∙ sym (append_assoc t (said false ds) s)

said_last_other :
    (kind : Bool) (ds : List (Bool × Bytes)) (s : Bytes)
    → said kind (ds ++ (not kind, s) ∷ []) ≡ said kind ds
said_last_other true [] s = refl
said_last_other false [] s = refl
said_last_other true ((true, t) ∷ ds) s = ap (◌++◌ t) (said_last_other true ds s)
said_last_other true ((false, t) ∷ ds) s = said_last_other true ds s
said_last_other false ((true, t) ∷ ds) s = said_last_other false ds s
said_last_other false ((false, t) ∷ ds) s = ap (◌++◌ t) (said_last_other false ds s)

or_else-append_str :
    (o : Option Bytes) (s : Bytes) → or_else (append_str o s) [] ≡ or_else o [] ++ s
or_else-append_str none s = refl
or_else-append_str (some t) s = refl

length-change_call :
    (i : ℕ) (f : Call → Call) (ks : List Call) → length (change_call i f ks) ≡ length ks
unfolding change_call
length-change_call i f [] = refl
length-change_call zero f (k ∷ ks) = refl
length-change_call (suc i) f (k ∷ ks) = ap suc (length-change_call i f ks)

module _ {D I : Type 0} where
  -- of the result: the texts, and at most 64 calls
  abbrev pub Holds : Result D I → List (Bool × Bytes) → Type 0
  Holds r deltas =
      (or_else r.content [] ≡ said false deltas)
      × (or_else r.reasoning [] ≡ said true deltas)
      × (length r.calls ≤ 64)

  abbrev pub IsTold : Chat D I → Type 0
  IsTold c = Holds c.result c.deltas

  module _ (to_int : D → I) (to_index : D → Option ℕ) where
    put_text-IsTold :
        (c : Chat D I) (kind : Bool) (s : Option Bytes)
        → IsTold c
        → IsTold (put_text to_int to_index c kind s)
    unfolding put_text
    put_text-IsTold c kind none h = h
    put_text-IsTold c true (some []) h = h
    put_text-IsTold c false (some []) h = h
    put_text-IsTold c true (some (x ∷ s)) (p, q, l) = (
      p ∙ sym (said_last_other false c.deltas (x ∷ s)),
      or_else-append_str c.result.reasoning (x ∷ s)
          ∙ ap (λ (t : Bytes). t ++ x ∷ s) q
          ∙ sym (said_last_same true c.deltas (x ∷ s)),
      l,
    )
    put_text-IsTold c false (some (x ∷ s)) (p, q, l) = (
      or_else-append_str c.result.content (x ∷ s)
          ∙ ap (λ (t : Bytes). t ++ x ∷ s) p
          ∙ sym (said_last_same false c.deltas (x ∷ s)),
      q ∙ sym (said_last_other true c.deltas (x ∷ s)),
      l,
    )

    abbrev Short : Option (List Call) → Type 0
    Short none = Unit
    Short (some calls) = length calls ≤ 64

    call_slot-Short :
        (calls : List Call) (i : Option ℕ) → length calls ≤ 64 → Short (call_slot calls i)
    unfolding call_slot
    call_slot-Short calls none h = tt
    call_slot-Short calls (some i) h =
        if_cases Short (ltb 63 i) (λ e. tt)
          (λ e. omega (
            arith,
            h,
            ltb-false→le 63 i e,
            length-append calls (replicate (suc i - length calls) zero_call),
            length-replicate (suc i - length calls) zero_call,
          ))

    put_call-Holds :
        (r : Result D I) (ds : List (Bool × Bytes)) (i : ℕ) (tc : Value D)
        (slot : Option (List Call))
        → Holds r ds
        → Short slot
        → Holds (put_call to_int to_index r i tc slot) ds
    unfolding put_call
    put_call-Holds r ds i tc none h l =
        if_intro (λ (r' : Result D I). Holds r' ds) (length r.err == 0) h h
    put_call-Holds r ds i tc (some calls) (p, q, m) l =
        let change : Call → Call = λ k.
          add_arguments (string_of (get (jv_get tc (codes "function")) (codes "arguments"))) (
            add_name (string_of (get (jv_get tc (codes "function")) (codes "name")))
              (set_id (string_of (jv_get tc (codes "id"))) k)) in
        (p, q, omega (arith, length-change_call i change calls, l))

    take_calls-Holds :
        (ks : Kids D) (r : Result D I) (ds : List (Bool × Bytes)) (i : ℕ)
        → Holds r ds
        → Holds (take_calls to_int to_index r i ks) ds
    unfolding take_calls
    take_calls-Holds nil r ds i h = h
    take_calls-Holds (kid k tc ks) r ds i h =
        let index = index_of to_int to_index tc i in
        let slot = call_slot r.calls index in
        let n = index_or_zero to_int to_index index in
        take_calls-Holds ks (put_call to_int to_index r n tc slot) ds (suc i)
          (put_call-Holds r ds n tc slot h (call_slot-Short r.calls index h.2))

    take_delta-IsTold :
        (c : Chat D I) (d : Option (Value D)) → IsTold c → IsTold (take_delta to_int to_index c d)
    unfolding take_delta
    take_delta-IsTold c none h = h
    take_delta-IsTold c (some d) h =
        let text = put_text-IsTold c false (string_of (jv_get d (codes "content"))) h in
        let both =
          put_text-IsTold
            (put_text to_int to_index c false (string_of (jv_get d (codes "content")))) true
            (reasoning_of to_int to_index d) text in
        let c' = put_texts to_int to_index c d in
        take_calls-Holds (kids_of (jv_get d (codes "tool_calls"))) c'.result c'.deltas 0 both

    take_choice-IsTold :
        (c : Chat D I) (ch : Option (Value D))
        → IsTold c
        → IsTold (take_choice to_int to_index c ch)
    unfolding take_choice
    take_choice-IsTold c none h = h
    take_choice-IsTold c (some ch) h =
        take_delta-IsTold (record c { result = with_choice to_int to_index c.result ch })
          (otherwise (jv_get ch (codes "delta")) (jv_get ch (codes "message"))) h

    take_error-Holds :
        (r : Result D I) (ds : List (Bool × Bytes)) (e : Option (Value D))
        → Holds r ds
        → Holds (take_error to_int to_index r e) ds
    unfolding take_error
    take_error-Holds r ds none h = h
    take_error-Holds r ds (some e) h =
        if_intro (λ (r' : Result D I). Holds r' ds) (length r.err == 0) h h

    take_usage-Holds :
        (r : Result D I) (ds : List (Bool × Bytes)) (u : Option (Value D))
        → Holds r ds
        → Holds (take_usage to_int to_index r u) ds
    unfolding take_usage
    take_usage-Holds r ds none h = h
    take_usage-Holds r ds (some u) h = h

    pub take_chunk-IsTold :
        (c : Chat D I) (j : Value D) → IsTold c → IsTold (take_chunk to_int to_index c j)
    unfolding take_chunk
    take_chunk-IsTold c j h =
        let e = take_error to_int to_index c.result (jv_get j (codes "error")) in
        let r = take_usage to_int to_index e (jv_get j (codes "usage")) in
        take_choice-IsTold (record c { result = r })
          (first_of to_int to_index (jv_get j (codes "choices")))
          (take_usage-Holds e c.deltas (jv_get j (codes "usage"))
            (take_error-Holds c.result c.deltas (jv_get j (codes "error")) h))
