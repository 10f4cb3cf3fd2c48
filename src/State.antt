-- ===== src/State.antt =====
-- src/fanwatch/state.py: `read_state`. The operating system and the decoding of JSON are an
-- environment: none is a call that raises.
use thelio_fans.Prelude.{
  ℕ, ◌≤◌, ◌+◌, ◌++◌, All, is_some, Bool, true, false, ◌≡◌, ◌↔◌, refl, ap, inl, inr, Option, none,
  some, List, [], ◌∷◌, length, ltb, if◌then◌else◌, Bool-cases, arith,
}
use mathlib.Core.Bool.{false≢true}
use mathlib.Core.Option.{none-ne-some, some-injective}
use thelio_fans.Snapshot.{Value, Members, object}
mod StateTests

abbrev max_state_bytes : ℕ
max_state_bytes = 65536

pub record StateFile (F : Type 0) : Type 0 where
  -- `os.open`, which follows no link and does not block: the descriptor
  pub opened : Option ℕ
  -- whether `os.fstat` says that the file is regular
  pub regular : Option Bool
  -- `os.read` of at most so many bytes
  pub read : ℕ → Option (List ℕ)
  -- `json.loads` of the decoded bytes
  pub loads : List ℕ → Option (Value F)

-- The calls on a descriptor, in order.
pub data FdCall : Type 0 where
  fstat_call read_call close_call : ℕ → FdCall

-- The `try` statement around the descriptor: what was read, and the calls; `finally` comes last.
unfoldable pub read_after : ℕ → Option Bool → Option (List ℕ) → Option (List ℕ) × List FdCall
read_after fd none raw = (none, fstat_call fd ∷ close_call fd ∷ [])
read_after fd (some false) raw = (none, fstat_call fd ∷ close_call fd ∷ [])
read_after fd (some true) raw = (raw, fstat_call fd ∷ read_call fd ∷ close_call fd ∷ [])

-- A call that uses the descriptor and leaves it open.
abbrev IsUse : ℕ → FdCall → Type 0
IsUse fd (fstat_call n) = n ≡ fd
IsUse fd (read_call n) = n ≡ fd
IsUse fd (close_call n) = ⊥

-- The descriptor, if there is one, is used and then closed, as the last call.
abbrev pub IsClosed : Option ℕ → List FdCall → Type 0
IsClosed none calls = calls ≡ []
IsClosed (some fd) calls =
    (uses : List FdCall) × (calls ≡ uses ++ (close_call fd ∷ [])) × All (IsUse fd) uses

read_after-IsClosed :
    (fd : ℕ) (regular : Option Bool) (raw : Option (List ℕ))
    → IsClosed (some fd) (read_after fd regular raw).1
unfolding read_after
read_after-IsClosed fd none raw = (fstat_call fd ∷ [], refl, (refl, tt))
read_after-IsClosed fd (some false) raw = (fstat_call fd ∷ [], refl, (refl, tt))
read_after-IsClosed fd (some true) raw =
    (fstat_call fd ∷ read_call fd ∷ [], refl, (refl, (refl, tt)))

-- A result comes from a regular file that has been read.
read_after-some :
    (fd : ℕ) (regular : Option Bool) (raw : Option (List ℕ)) (bytes : List ℕ)
    → (read_after fd regular raw).0 ≡ some bytes
    → (regular ≡ some true) × (raw ≡ some bytes)
unfolding read_after
read_after-some fd none raw bytes h = absurd (none-ne-some bytes h)
read_after-some fd (some false) raw bytes h = absurd (none-ne-some bytes h)
read_after-some fd (some true) raw bytes h = (refl, h)

module _ {F : Type 0} where
  -- `data if isinstance(data, dict) else None`
  unfoldable pub object_of : Option (Value F) → Option (Members F)
  object_of (some (object members)) = some members
  object_of _ = none

  -- What follows the reading.
  unfoldable pub accepted : StateFile F → Option (List ℕ) → Option (Members F)
  unfolding object_of
  accepted file none = none
  accepted file (some raw) =
      if ltb max_state_bytes (length raw) then none else object_of (file.loads raw)

  -- From the opening on: the descriptor, or the error of `os.open`.
  unfoldable pub read_from : StateFile F → Option ℕ → Option (Members F) × List FdCall
  unfolding read_after accepted
  read_from file none = (none, [])
  read_from file (some fd) =
      let (raw, calls) = read_after fd file.regular (file.read (max_state_bytes + 1)) in
      (accepted file raw, calls)

  -- `read_state`
  unfoldable pub read_state : StateFile F → Option (Members F) × List FdCall
  unfolding read_from
  read_state file = read_from file file.opened

  -- What a state that is accepted tells of the file.
  pub record IsAccepted (file : StateFile F) (members : Members F) : Type 0 where
    pub raw : List ℕ
    pub is_regular : file.regular ≡ some true
    pub bytes : file.read 65537 ≡ some raw
    pub bounded : length raw ≤ 65536
    pub decoded : file.loads raw ≡ some (object members)

  object_of-some :
      (v : Option (Value F)) (members : Members F)
      → object_of v ≡ some members
      → v ≡ some (object members)
  unfolding object_of
  object_of-some none members h = absurd (none-ne-some members h)
  object_of-some (some (object m)) members h =
      ap (λ x. some (object x)) (some-injective m members h)
  object_of-some (some v) members h = absurd (none-ne-some members h)

  accepted-some :
      (file : StateFile F) (raw : Option (List ℕ)) (members : Members F)
      → accepted file raw ≡ some members
      → (bytes : List ℕ) × (raw ≡ some bytes)
        × (length bytes ≤ 65536)
        × (file.loads bytes ≡ some (object members))
  unfolding accepted
  accepted-some file none members h = absurd (none-ne-some members h)
  accepted-some file (some bytes) members h =
      elim (Bool-cases (ltb max_state_bytes (length bytes))) [
        | inl e ↦ absurd (none-ne-some members (ground (arith, h, e)))
        | inr e ↦ (
          bytes,
          refl,
          ground (arith, e),
          object_of-some (file.loads bytes) members (ground (arith, h, e)),
        )
      ]

  read_from-IsAccepted :
      (file : StateFile F) (o : Option ℕ) (members : Members F)
      → (read_from file o).0 ≡ some members
      → (is_some o ≡ true) × IsAccepted file members
  unfolding read_from
  read_from-IsAccepted file none members h = absurd (none-ne-some members h)
  read_from-IsAccepted file (some fd) members h =
      let raw = file.read (max_state_bytes + 1) in
      let (bytes, e, short, decoded) =
        accepted-some file (read_after fd file.regular raw).0 members h in
      let (regular, at) = read_after-some fd file.regular raw bytes e in
      (
        refl,
        record {
          raw = bytes;
          is_regular = regular;
          bytes = at;
          bounded = short;
          decoded = decoded;
        },
      )

  IsAccepted-read_from :
      (file : StateFile F) (o : Option ℕ) (members : Members F)
      → is_some o ≡ true
      → IsAccepted file members
      → (read_from file o).0 ≡ some members
  unfolding read_from read_after accepted object_of
  IsAccepted-read_from file none members h a = absurd (false≢true h)
  IsAccepted-read_from file (some fd) members h a =
      let short : ltb max_state_bytes (length a.raw) ≡ false = ground (arith, a.bounded) in
      rw (a.is_regular, a.bytes, short, a.decoded) refl

  read_from-IsClosed : (file : StateFile F) (o : Option ℕ) → IsClosed o (read_from file o).1
  unfolding read_from
  read_from-IsClosed file none = refl
  read_from-IsClosed file (some fd) =
      read_after-IsClosed fd file.regular (file.read (max_state_bytes + 1))

  -- A descriptor that is opened is closed once, as the last call on it, on every path. The state is
  -- `members` exactly when the file opens, is regular, is read as at most 65536 bytes, and these are
  -- the JSON object `members`.
  pub read_state_lem :
      (file : StateFile F) (members : Members F)
      → IsClosed file.opened (read_state file).1
        × (((read_state file).0 ≡ some members)
            ↔ ((is_some file.opened ≡ true) × IsAccepted file members))
  unfolding read_state
  read_state_lem file members = (
    read_from-IsClosed file file.opened,
    (
      read_from-IsAccepted file file.opened members,
      (λ (o, a). IsAccepted-read_from file file.opened members o a),
    ),
  )
