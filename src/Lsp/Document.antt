-- ===== src/Lsp/Document.antt =====
-- internal/lsp/document.go: the open documents of the language server, and internal/lsp/uri.go.
-- The lock makes each operation one step.
pub mod Sync
use tya.Prelude.{
  ℤ, pos, ltb_ℤ, ℕ, zero, suc, Bool, true, false, ◌&&◌, List, [], ◌∷◌, Option, none, some, ◌≡◌,
  refl, ltb, ◌==◌, if◌then◌else◌, Bytes, codes, length, drop,
}
use tya.Text.{bytes_eq, byte_is}
use tya.Dict.{lookup, insert, erase}
use tya.Lsp.Incremental.{Change, Result, ok, err, apply_change}

pub record Document : Type 0 where
  pub uri : Bytes
  pub path : Bytes
  pub version : ℤ
  pub text : Bytes

abbrev pub Store : Type 0
Store = List (Bytes × Document)

-- What `url.Parse` gives.
pub record Url : Type 0 where
  pub scheme : Bytes
  pub path : Bytes

-- `ApplyChanges`' loop: a change that cannot be applied counts as the whole text.
unfoldable pub apply_all : Bytes → List Change → Bytes
unfolding apply_change
apply_all text [] = text
apply_all text (c ∷ cs) =
    apply_all (elim (apply_change text c) [ ok next ↦ next | err e ↦ c.text ]) cs

-- `Save` with a text, or without.
unfoldable pub save : Bytes → Option Bytes → Store → Store
unfolding lookup insert
save uri none s = s
save uri (some text) s = elim (lookup uri s) [
  | none ↦ s
  | some d ↦ insert uri (record d { text = text }) s
]

unfoldable pub close : Bytes → Store → Store
unfolding erase
close uri s = erase uri s

unfoldable pub get : Bytes → Store → Option Document
unfolding lookup
get uri s = lookup uri s

-- What the client tells the server of a document.
pub data Message : Type 0 where
  did_open : (version : ℤ) → (text : Bytes) → Message
  did_replace : (version : ℤ) → (text : Bytes) → Message
  did_change : (version : ℤ) → List Change → Message
  did_save : Option Bytes → Message
  did_close : Message

-- `url.Parse` and, on Windows, `filepath.FromSlash` are parameters.
module _ (parse_url : Bytes → Option Url) (windows : Bool) (from_slash : Bytes → Bytes) where
  -- `URIToPath`; every error gives the empty path, as its callers here ignore it.
  unfoldable pub uri_to_path : Bytes → Bytes
  unfolding bytes_eq
  uri_to_path uri = elim (parse_url uri) [
    | none ↦ []
    | some u ↦
        if bytes_eq u.scheme (codes "file")
        then (if windows
            then from_slash (
                if ltb 2 (length u.path) && byte_is u.path 0 b'/' && byte_is u.path 2 b':'
                then drop 1 u.path
                else u.path)
            else u.path)
        else []
  ]

  unfoldable pub new_document : Bytes → ℤ → Bytes → Document
  unfolding uri_to_path
  new_document uri version text = record {
    uri = uri;
    path = uri_to_path uri;
    version = version;
    text = text;
  }

  -- `Open`.
  unfoldable pub open_document : Bytes → ℤ → Bytes → Store → Store
  unfolding insert new_document
  open_document uri version text s = insert uri (new_document uri version text) s

  -- `Change`.
  unfoldable pub change : Bytes → ℤ → Bytes → Store → Store
  unfolding lookup insert new_document
  change uri version text s = elim (lookup uri s) [
    | none ↦ insert uri (new_document uri version text) s
    | some d ↦
        if ltb_ℤ version d.version
        then s
        else insert uri (record d { version = version; text = text }) s
  ]

  -- `ApplyChanges`, without the text that it returns, which is that of the document afterwards.
  unfoldable pub apply_changes : Bytes → ℤ → List Change → Store → Store
  unfolding lookup insert new_document apply_all
  apply_changes uri version changes s = elim (lookup uri s) [
    | none ↦ insert uri (new_document uri version (apply_all [] changes)) s
    | some d ↦
        if ltb_ℤ version d.version
        then s
        else insert uri (record d { version = version; text = apply_all d.text changes }) s
  ]

  unfoldable pub handle : Bytes → Message → Store → Store
  unfolding open_document change apply_changes save close
  handle uri (did_open version text) s = open_document uri version text s
  handle uri (did_replace version text) s = change uri version text s
  handle uri (did_change version changes) s = apply_changes uri version changes s
  handle uri (did_save text) s = save uri text s
  handle uri did_close s = close uri s

  unfoldable pub handle_all : List (Bytes × Message) → Store → Store
  unfolding handle
  handle_all [] s = s
  handle_all ((uri, m) ∷ ms) s = handle_all ms (handle uri m s)
