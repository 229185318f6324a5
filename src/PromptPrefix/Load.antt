-- ===== src/PromptPrefix/Load.antt =====
-- `p36_prompt_prefix_load`: reading the file, and what an error of the parser becomes.
use preon_star.Base.{
  Bool, Bytes, List, Option, Option-cases, arith, false, if◌then◌else◌, inl, inr, length,
  length-take, ltb, none, not, some, take, true, ℕ, ◌&&◌, ◌==◌, ◌↔◌, ◌≡◌,
}
use preon_star.PromptPrefix.{Error, Memory, Result, Turn, err, is_nil, ok, parse}

-- What the C library answers about one file: whether each call succeeds, the size that `ftell`
-- gives (`none` if it is negative or too large), and the bytes that `fread` delivers.
pub record File : Type 0 where
  pub opens : Bool
  pub seeks_end : Bool
  pub size : Option ℕ
  pub rewinds : Bool
  pub allocates : Bool
  pub bytes : Bytes
  pub closes : Bool

-- the messages of the loader, and a message of the parser behind the path
pub data LoadError : Type 0 where
  invalid_path cannot_open cannot_seek cannot_size cannot_rewind out_of_memory : LoadError
  cannot_read cannot_close : LoadError
  in_file : Bytes → Error → LoadError

pub data Loaded : Type 0 where
  turns : List Turn → Loaded
  failed : LoadError → Loaded

abbrev pub name_error : Bytes → Result (List Turn) → Loaded
name_error path (ok ts) = turns ts
name_error path (err e) = failed (in_file path e)

module _ (m : Memory) (path : Bytes) (file : File) where
  -- from `malloc` on, for a file of `len` bytes; `fread` delivers the first `len` bytes at most
  unfoldable pub load_bytes : ℕ → Loaded
  load_bytes len =
      if not file.allocates
      then failed out_of_memory
      else if ltb 0 len && not (length (take len file.bytes) == len)
      then failed cannot_read
      else if not file.closes
      then failed cannot_close
      else name_error path (parse m (take len file.bytes))

  unfoldable pub load : Loaded
  unfolding load_bytes
  load =
      if is_nil path
      then failed invalid_path
      else if not file.opens
      then failed cannot_open
      else if not file.seeks_end
      then failed cannot_seek
      else elim file.size [
        | none ↦ failed cannot_size
        | some len ↦ if not file.rewinds then failed cannot_rewind else load_bytes len
      ]

  -- what a successful load rests on
  pub record Read (len : ℕ) (ts : List Turn) : Type 0 where
    pub path_given : is_nil path ≡ false
    pub opened : file.opens ≡ true
    pub sought : file.seeks_end ≡ true
    pub sized : file.size ≡ some len
    pub rewound : file.rewinds ≡ true
    pub allocated : file.allocates ≡ true
    pub whole : length (take len file.bytes) ≡ len
    pub closed : file.closes ≡ true
    pub parsed : parse m (take len file.bytes) ≡ ok ts

  load_bytes-Read :
      (len : ℕ) (ts : List Turn)
      → load_bytes len ≡ turns ts
      → (file.allocates ≡ true)
        × (length (take len file.bytes) ≡ len)
        × (file.closes ≡ true)
        × (name_error path (parse m (take len file.bytes)) ≡ turns ts)
  unfolding load_bytes
  load_bytes-Read len ts h = ground (arith, length-take len file.bytes)

  name_error-ok :
      (r : Result (List Turn)) (ts : List Turn) → name_error path r ≡ turns ts → r ≡ ok ts
  name_error-ok (ok us) ts h = cc h
  name_error-ok (err e) ts h = cc h

  load-Read : (ts : List Turn) → load ≡ turns ts → (len : ℕ) × Read len ts
  unfolding load
  load-Read ts h = elim (Option-cases file.size) [
    | inl e ↦ absurd (ground (arith, e, h))
    | inr (len, e) ↦
        let bytes : load_bytes len ≡ turns ts = ground (arith, e, h) in
        let (allocated, whole, closed, parsed) = load_bytes-Read len ts bytes in
        (
          len,
          record {
            path_given = ground (arith, e, h);
            opened = ground (arith, e, h);
            sought = ground (arith, e, h);
            sized = e;
            rewound = ground (arith, e, h);
            allocated = allocated;
            whole = whole;
            closed = closed;
            parsed = name_error-ok _ ts parsed;
          },
        )
  ]

  Read-load : (len : ℕ) (ts : List Turn) → Read len ts → load ≡ turns ts
  unfolding load load_bytes
  Read-load len ts r =
      rw (r.path_given, r.opened, r.sought, r.sized, r.rewound, r.allocated, r.closed, r.parsed)
        (ground (arith, r.whole))

-- A file loads as the turns `ts` exactly if the path is not empty, every call of the C library
-- succeeds, as many bytes are delivered as the size says, and those bytes parse as `ts`.
pub load-turns_iff :
    (m : Memory) (path : Bytes) (file : File) (ts : List Turn)
    → (load m path file ≡ turns ts) ↔ ((len : ℕ) × Read m path file len ts)
load-turns_iff m path file ts = (load-Read m path file ts, λ r. Read-load m path file r.0 ts r.1)
