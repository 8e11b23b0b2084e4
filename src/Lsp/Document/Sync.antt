-- ===== src/Lsp/Document/Sync.antt =====
-- The server's copy of a document follows the client's.
use tya.Prelude.{
  ℤ, ltb_ℤ, ℕ, ◌≤◌, Bool, true, false, List, [], ◌∷◌, ◌++◌, Option, none, some, ◌≡◌, refl, ◌∙◌, inl,
  inr, Bool-cases, Option-cases, Bytes, length, take, drop,
}
use tya.Text.{bytes_eq, bytes_eq_refl}
use tya.Dict.{lookup, insert, lookup-insert, lookup-erase}
use tya.Lsp.Incremental.{Change, offset_to_position}
use tya.Lsp.Incremental.RoundTrip.{apply_change-between}
use tya.Lsp.Document.{
  Document, Store, Url, apply_all, save, close, get, Message, did_open, did_replace, did_change,
  did_save, did_close, new_document, open_document, change, apply_changes, handle, handle_all,
}

-- An edit of the client: the bytes between two offsets are replaced.
pub record Edit : Type 0 where
  pub from : ℕ
  pub to : ℕ
  pub new : Bytes

abbrev pub edit_text : Bytes → Edit → Bytes
edit_text t e = take e.from t ++ (e.new ++ drop e.to t)

abbrev pub edits_text : Bytes → List Edit → Bytes
edits_text t [] = t
edits_text t (e ∷ es) = edits_text (edit_text t e) es

-- Each edit lies within the text that the edits before it leave.
abbrev pub InText : Bytes → List Edit → Type 0
InText t [] = Unit {0}
InText t (e ∷ es) = (e.from ≤ e.to) × (e.to ≤ length t) × InText (edit_text t e) es

-- What the client sends for an edit of its text.
abbrev pub change_of : Bytes → Edit → Change
change_of t e = record {
  range = some (record { start = offset_to_position t e.from; end = offset_to_position t e.to });
  text = e.new;
}

abbrev pub changes_of : Bytes → List Edit → List Change
changes_of t [] = []
changes_of t (e ∷ es) = change_of t e ∷ changes_of (edit_text t e) es

apply_all-changes_of :
    (t : Bytes) (es : List Edit) → InText t es → apply_all t (changes_of t es) ≡ edits_text t es
unfolding apply_all
apply_all-changes_of t [] h = refl
apply_all-changes_of t (e ∷ es) (a, b, h) =
    rw (apply_change-between t e.from e.to e.new a b, apply_all)
      (apply_all-changes_of (edit_text t e) es h)

-- The client's copy of an open document.
pub record Copy : Type 0 where
  pub version : ℤ
  pub text : Bytes

-- A course of messages after which the client's copy of `uri` has changed from one to another.
pub data Talks (uri : Bytes) : Option Copy → List (Bytes × Message) → Option Copy → Type 0 where
  silent : {c : Option Copy} → Talks uri c [] c
  elsewhere :
      {c c' : Option Copy} {u : Bytes} {m : Message} {ms : List (Bytes × Message)}
      → bytes_eq u uri ≡ false
      → Talks uri c ms c'
      → Talks uri c ((u, m) ∷ ms) c'
  opens :
      {c c' : Option Copy} {v : ℤ} {t : Bytes} {ms : List (Bytes × Message)}
      → Talks uri (some (record { version = v; text = t })) ms c'
      → Talks uri c ((uri, did_open v t) ∷ ms) c'
  edits :
      {k : Copy} {c' : Option Copy} {v : ℤ} {ms : List (Bytes × Message)} (es : List Edit)
      → ltb_ℤ v k.version ≡ false
      → InText k.text es
      → Talks uri (some (record { version = v; text = edits_text k.text es })) ms c'
      → Talks uri (some k) ((uri, did_change v (changes_of k.text es)) ∷ ms) c'
  too_late :
      {k : Copy} {c' : Option Copy} {v : ℤ} {cs : List Change} {ms : List (Bytes × Message)}
      → ltb_ℤ v k.version ≡ true
      → Talks uri (some k) ms c'
      → Talks uri (some k) ((uri, did_change v cs) ∷ ms) c'
  saves :
      {c c' : Option Copy} {ms : List (Bytes × Message)}
      → Talks uri c ms c'
      → Talks uri c ((uri, did_save none) ∷ ms) c'
  saves_text :
      {k : Copy} {c' : Option Copy} {ms : List (Bytes × Message)}
      → Talks uri (some k) ms c'
      → Talks uri (some k) ((uri, did_save (some k.text)) ∷ ms) c'
  closes :
      {c c' : Option Copy} {ms : List (Bytes × Message)}
      → Talks uri none ms c'
      → Talks uri c ((uri, did_close) ∷ ms) c'

-- The server has the document that the client has, under the URI that it was opened with.
pub data Agrees (uri : Bytes) : Option Document → Option Copy → Type 0 where
  both_closed : Agrees uri none none
  both_open :
      {d : Document} {k : Copy}
      → d.uri ≡ uri
      → d.version ≡ k.version
      → d.text ≡ k.text
      → Agrees uri (some d) (some k)

module _ (parse_url : Bytes → Option Url) (windows : Bool) (from_slash : Bytes → Bytes) where
  lookup-insert_other :
      (u uri : Bytes) (d : Document) (s : Store)
      → bytes_eq u uri ≡ false
      → lookup uri (insert u d s) ≡ lookup uri s
  lookup-insert_other u uri d s h = lookup-insert u uri d s ∙ rw h refl

  lookup-insert_self :
      (uri : Bytes) (d : Document) (s : Store) → lookup uri (insert uri d s) ≡ some d
  lookup-insert_self uri d s = lookup-insert uri uri d s ∙ rw (bytes_eq_refl uri) refl

  -- A message about one document leaves the others as they are.
  handle-elsewhere :
      (u uri : Bytes) (m : Message) (s : Store)
      → bytes_eq u uri ≡ false
      → get uri (handle parse_url windows from_slash u m s) ≡ get uri s
  unfolding handle get
  handle-elsewhere u uri (did_open v t) s h =
      unfold open_document in lookup-insert_other u uri _ s h
  handle-elsewhere u uri (did_replace v t) s h = elim (Option-cases (lookup u s)) [
    | inl e ↦ rw (e, change) (lookup-insert_other u uri _ s h)
    | inr (d, e) ↦ elim (Bool-cases (ltb_ℤ v d.version)) [
      | inl f ↦ rw (e, f, change) refl
      | inr f ↦ rw (e, f, change) (lookup-insert_other u uri _ s h)
    ]
  ]
  handle-elsewhere u uri (did_change v cs) s h = elim (Option-cases (lookup u s)) [
    | inl e ↦ rw (e, apply_changes) (lookup-insert_other u uri _ s h)
    | inr (d, e) ↦ elim (Bool-cases (ltb_ℤ v d.version)) [
      | inl f ↦ rw (e, f, apply_changes) refl
      | inr f ↦ rw (e, f, apply_changes) (lookup-insert_other u uri _ s h)
    ]
  ]
  handle-elsewhere u uri (did_save none) s h = unfold save in refl
  handle-elsewhere u uri (did_save (some t)) s h = elim (Option-cases (lookup u s)) [
    | inl e ↦ rw (e, save) refl
    | inr (d, e) ↦ rw (e, save) (lookup-insert_other u uri _ s h)
  ]
  handle-elsewhere u uri did_close s h = unfold close in lookup-erase u uri s ∙ rw h refl

  Agrees-edits :
      (uri : Bytes) (o : Option Document) (k : Copy) (v : ℤ) (es : List Edit) (s : Store)
      → lookup uri s ≡ o
      → Agrees uri o (some k)
      → ltb_ℤ v k.version ≡ false
      → InText k.text es
      → Agrees uri
          (get uri (apply_changes parse_url windows from_slash uri v (changes_of k.text es) s))
          (some (record { version = v; text = edits_text k.text es }))
  unfolding get apply_changes
  Agrees-edits uri none k v es s e a l i = elim a [ ]
  Agrees-edits uri (some d) k v es s e (both_open a b c) l i =
      rw (e, b, l, apply_changes)
        (rw (lookup-insert_self uri _ s)
          (both_open a refl (rw c (apply_all-changes_of k.text es i))))

  Agrees-late :
      (uri : Bytes) (o : Option Document) (k : Copy) (v : ℤ) (cs : List Change) (s : Store)
      → lookup uri s ≡ o
      → Agrees uri o (some k)
      → ltb_ℤ v k.version ≡ true
      → Agrees uri (get uri (apply_changes parse_url windows from_slash uri v cs s)) (some k)
  unfolding get apply_changes
  Agrees-late uri none k v cs s e a l = elim a [ ]
  Agrees-late uri (some d) k v cs s e (both_open a b c) l =
      rw (e, b, l, apply_changes) (rw e (both_open a b c))

  Agrees-save :
      (uri : Bytes) (o : Option Document) (k : Copy) (s : Store)
      → lookup uri s ≡ o
      → Agrees uri o (some k)
      → Agrees uri (get uri (save uri (some k.text) s)) (some k)
  unfolding get save
  Agrees-save uri none k s e a = elim a [ ]
  Agrees-save uri (some d) k s e (both_open a b c) =
      rw (e, save) (rw (lookup-insert_self uri _ s) (both_open a b refl))

  -- Whatever messages about other documents come in between, the server's copy of a document is the
  -- client's after every course of opening, editing, saving and closing it, if no edit goes past the
  -- end of the text and no version falls; changes that come with an older version are left out.
  pub handle_all-Agrees :
      {uri : Bytes} {c c' : Option Copy} {ms : List (Bytes × Message)} (s : Store)
      → Talks uri c ms c'
      → Agrees uri (get uri s) c
      → Agrees uri (get uri (handle_all parse_url windows from_slash ms s)) c'
  unfolding handle_all handle get
  handle_all-Agrees s silent a = a
  handle_all-Agrees {uri} s (elsewhere {u} {m} h t) a =
      handle_all-Agrees (handle parse_url windows from_slash u m s) t
        (rw (handle-elsewhere u uri m s h) a)
  handle_all-Agrees {uri} s (opens {v} {t = text} t) a = handle_all-Agrees _ t (
      unfold get open_document new_document in
      rw (lookup-insert_self uri _ s) (both_open refl refl refl))
  handle_all-Agrees {uri} s (edits {k} {v} es l i t) a =
      handle_all-Agrees _ t (Agrees-edits uri (get uri s) k v es s refl a l i)
  handle_all-Agrees {uri} s (too_late {k} {v} {cs} l t) a =
      handle_all-Agrees _ t (Agrees-late uri (get uri s) k v cs s refl a l)
  handle_all-Agrees {uri} s (saves t) a = handle_all-Agrees s t a
  handle_all-Agrees {uri} s (saves_text {k} t) a =
      handle_all-Agrees _ t (Agrees-save uri (get uri s) k s refl a)
  handle_all-Agrees {uri} s (closes t) a =
      handle_all-Agrees _ t
        (unfold get close in rw (lookup-erase uri uri s) (rw (bytes_eq_refl uri) both_closed))
