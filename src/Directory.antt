-- ===== src/Directory.antt =====
-- The directory that the stores in files share: crates/ext/mcp-governance/src/store.rs and
-- crates/core/mesh/src/identity/keystore.rs. It is its files of each extension by their stems; a file
-- that is there can be read, and a write that fails leaves nothing behind.
use microsoft_agt_rust.Prelude.{
  ◌≡◌, Bool, true, false, ◌&&◌, String, Option, none, some, [], arith, eq_iff, str_eq,
  if◌then◌else◌, Option-cases, inl, inr,
}
use microsoft_agt_rust.Prelude.Result.{Result, ok, err, Result-cases}
use microsoft_agt_rust.Prelude.Map
use microsoft_agt_rust.Prelude.Map.{HashMap, get-insert, get-remove}
use microsoft_agt_rust.Prelude.Text.{utf8}
use microsoft_agt_rust.Platform.{Platform}

-- The files with the extension "json" and those with "tmp".
pub record Directory : Type 0 where
  pub json : HashMap String
  pub tmp : HashMap String

abbrev pub empty_dir : Directory
empty_dir = record { json = []; tmp = [] }

-- The outcomes of `fs::write` and `fs::rename` in one save.
pub record SaveIo : Type 0 where
  pub written : Result String (Unit {0})
  pub renamed : Result String (Unit {0})

abbrev pub is_ok : Result String (Unit {0}) → Bool
is_ok (ok _) = true
is_ok (err _) = false

-- Whether a save goes through.
abbrev pub saved : SaveIo → Bool
saved io = is_ok io.written && is_ok io.renamed

-- The stem of `get_path`.
abbrev pub file_stem : Platform → String → String
file_stem p agent_did = p.sha256_hex (utf8 agent_did)

-- The text of a file.
abbrev pub read : String → Directory → Option String
read stem d = Map.get d.json stem

-- The file is written beside its target; the rename moves it there and replaces what was there.
pub replace : SaveIo → String → String → Directory → Result String (Unit {0}) × Directory
replace io stem text d = elim io.written [
  | err e ↦ (err e, d)
  | ok _ ↦ elim io.renamed [
    | err e ↦ (err e, record d { tmp = Map.insert d.tmp stem text })
    | ok _ ↦ (ok tt, record { json = Map.insert d.json stem text; tmp = Map.remove d.tmp stem })
  ]
]

-- `fs::remove_file` with its outcome, called if there is a file.
pub discard : Result String (Unit {0}) → String → Directory → Result String (Unit {0}) × Directory
discard io stem d = elim (Map.get d.json stem) [
  | none ↦ (ok tt, d)
  | some _ ↦ elim io [
    | err e ↦ (err e, d)
    | ok _ ↦ (ok tt, record d { json = Map.remove d.json stem })
  ]
]

pub read-replace :
    (io : SaveIo) (stem text other : String) (d : Directory)
    → read other (replace io stem text d).1
      ≡ (if saved io && str_eq stem other then some text else read other d)
unfolding replace
read-replace io stem text other d = elim (Result-cases io.written) [
  | inr (_, w) ↦ ground (arith, w)
  | inl (_, w) ↦ elim (Result-cases io.renamed) [
    | inr (_, r) ↦ ground (arith, w, r)
    | inl (_, r) ↦ ground (arith, w, r, get-insert d.json stem text other)
  ]
]

pub read-discard :
    (io : Result String (Unit {0})) (stem other : String) (d : Directory)
    → read other (discard io stem d).1
      ≡ (if is_ok io && str_eq stem other then none else read other d)
unfolding discard
read-discard io stem other d = elim (Option-cases (Map.get d.json stem)) [
  | inl q ↦ ground (arith, q, eq_iff stem other)
  | inr (_, q) ↦ elim (Result-cases io) [
    | inr (_, r) ↦ ground (arith, q, r)
    | inl (_, r) ↦ ground (arith, q, r, get-remove d.json stem other)
  ]
]

-- The hash of this DID is not that of another one.
abbrev pub IsDistinct : Platform → String → String → Type 0
IsDistinct p did other = file_stem p other ≡ file_stem p did → other ≡ did
