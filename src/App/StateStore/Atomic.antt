-- ===== src/App/StateStore/Atomic.antt =====
-- `save` replaces the state file as a whole, or leaves it as it was.
use mathlib.Core.Option.{some-injective}
use pid_ctl.Prelude.{
  ℕ, ◌≡◌, ◌≢◌, refl, ap, sym, ◌∙◌, arith, Option, none, some, [], ◌∷◌, ◌++◌, length, length-append,
  inl, inr, ◌⊎◌, Option-cases,
}
use pid_ctl.Float.{Float}
use pid_ctl.App.Snapshot.{StateSnapshot, StateStoreError, IoError, json, validate, not_found}
use pid_ctl.App.StateStore.{
  Text, FilePath, Files, Json, World, ◌andthen◌, at_path, temp_path, write_and_rename, clean_up,
  save_text, save, load, from_json_str, loaded, IoResult, ok, err,
}

-- What POSIX says of these calls on one disk, where `content d p` is what the file `p` holds: a call
-- touches no file but its own, a failed rename touches none, and a rename is all or nothing.
pub record IsPosix {D : Type 0} (files : Files D) : Type 0 where
  pub content : D → FilePath → Option Text
  pub create_others :
      (p q : FilePath) (d : D) → q ≢ p → content (files.create_new p d).1 q ≡ content d q
  pub create_empty :
      (p : FilePath) (d : D)
      → (files.create_new p d).0 ≡ none
      → content (files.create_new p d).1 p ≡ some []
  pub write_others :
      (p q : FilePath) (t : Text) (d : D)
      → q ≢ p
      → content (files.write_all p t d).1 q ≡ content d q
  pub write_text :
      (p : FilePath) (t : Text) (d : D)
      → content d p ≡ some []
      → (files.write_all p t d).0 ≡ none
      → content (files.write_all p t d).1 p ≡ some t
  pub sync_all_files : (p q : FilePath) (d : D) → content (files.sync_all p d).1 q ≡ content d q
  pub rename_moves :
      (p q : FilePath) (d : D)
      → (files.rename p q d).0 ≡ none
      → content (files.rename p q d).1 q ≡ content d p
  pub rename_fails :
      (p q r : FilePath) (d : D)
      → (files.rename p q d).0 ≢ none
      → content (files.rename p q d).1 r ≡ content d r
  pub remove_others :
      (p q : FilePath) (d : D) → q ≢ p → content (files.remove_file p d).1 q ≡ content d q
  pub read_content :
      (p : FilePath) (t : Text) (d : D) → files.read_to_string p d ≡ ok t → content d p ≡ some t
  pub read_missing :
      (p : FilePath) (d : D) → files.read_to_string p d ≡ err not_found → content d p ≡ none

ne_longer : (name rest : Text) → name ≢ b'.' ∷ (name ++ rest)
ne_longer name rest e = omega (arith, ap length e, length-append name rest)

none-ne-some : {A : Type 0} {x : A} → none ≢ some x
none-ne-some e = cc

Io-cases : {A : Type 0} (r : IoResult A) → ((x : A) × (r ≡ ok x)) ⊎ ((e : IoError) × (r ≡ err e))
Io-cases (ok x) = inl (x, refl)
Io-cases (err e) = inr (e, refl)

module _ {D : Type 0} (files : Files D) where
  -- The temporary file is never the state file: its name is longer.
  temp_path-ne : (p : FilePath) (n : ℕ) → p ≢ temp_path files p n
  unfolding temp_path
  temp_path-ne p n e = elim (Option-cases p.file_name) [
    | inl missing ↦ cc (ap (λ (q : FilePath). q.file_name) e)
    | inr (name, known) ↦
        ne_longer name _ (some-injective _ _ (rw known at (ap (λ (q : FilePath). q.file_name) e)))
  ]

  module _ (posix : IsPosix files) where
    open posix use {content}

    -- What the steps of `save` may leave: the old file after an error, the new one after none.
    abbrev Written : FilePath → Text → D → Option StateStoreError × D → Type 0
    Written path text d (none, d') = content d' path ≡ some text
    Written path text d (some e, d') = content d' path ≡ content d path

    Written-cases :
        (path : FilePath) (text : Text) (d : D) (r : Option StateStoreError × D)
        → Written path text d r
        → (r.0 ≢ none → content r.1 path ≡ content d path)
          × (r.0 ≡ none → content r.1 path ≡ some text)
    Written-cases path text d (none, d') w = (λ h. absurd (h refl), λ _. w)
    Written-cases path text d (some e, d') w = (λ _. w, λ h. cc)

    write_and_rename-Written :
        (path temp : FilePath) (text : Text) (d : D)
        → path ≢ temp
        → Written path text d (write_and_rename files path temp text d)
    unfolding write_and_rename ◌andthen◌ at_path
    write_and_rename-Written path temp text d ne =
        let d1 = (files.create_new temp d).1 in
        let d2 = (files.write_all temp text d1).1 in
        let d3 = (files.sync_all temp d2).1 in
        ground (
          arith,
          posix.create_others temp path d ne,
          posix.create_empty temp d,
          posix.write_others temp path text d1 ne,
          posix.write_text temp text d1,
          posix.sync_all_files temp path d2,
          posix.sync_all_files temp temp d2,
          posix.rename_moves temp path d3,
          posix.rename_fails temp path path d3,
        )

    clean_up-Written :
        (path temp : FilePath) (text : Text) (d : D) (r : Option StateStoreError × D)
        → path ≢ temp
        → Written path text d r
        → Written path text d (clean_up files temp r)
    unfolding clean_up
    clean_up-Written path temp text d (none, d') ne w = w
    clean_up-Written path temp text d (some e, d') ne w = posix.remove_others temp path d' ne ∙ w

    save_text-Written :
        (path : FilePath) (text : Text) (w : World D)
        → let r = save_text files path text w in
          Written path (text ++ 10 ∷ []) w.disk (r.0, r.1.disk)
    unfolding save_text
    save_text-Written path text w =
        let temp = temp_path files path w.temp_counter in
        let ne = temp_path-ne path w.temp_counter in
        clean_up-Written path temp _ w.disk _ ne
          (write_and_rename-Written path temp (text ++ 10 ∷ []) w.disk ne)

    module _ {F : Type 0} ⦃float : Float F⦄ (format : Json F) where
      save_invalid :
          (path : FilePath) (snapshot : StateSnapshot F) (w : World D) (e : StateStoreError)
          → validate snapshot ≡ some e
          → save files format path snapshot w ≡ (some e, w)
      unfolding save
      save_invalid path snapshot w e h = rw (h, save)

      save_unprintable :
          (path : FilePath) (snapshot : StateSnapshot F) (w : World D)
          → validate snapshot ≡ none
          → format.to_string_pretty snapshot ≡ none
          → save files format path snapshot w ≡ (some json, w)
      unfolding save
      save_unprintable path snapshot w h k = rw (h, k, save)

      save_printed :
          (path : FilePath) (snapshot : StateSnapshot F) (w : World D) (text : Text)
          → validate snapshot ≡ none
          → format.to_string_pretty snapshot ≡ some text
          → save files format path snapshot w ≡ save_text files path text w
      unfolding save
      save_printed path snapshot w text h k = rw (h, k, save)

      -- `save` is all or nothing. Either it reports an error, whichever of its steps failed, and the
      -- state file holds what it held before; or it reports none, the snapshot is of a supported
      -- schema version, and the file holds its JSON text, whole, with a newline at the end.
      pub save_atomic :
          (path : FilePath) (snapshot : StateSnapshot F) (w : World D)
          → let r = save files format path snapshot w in
            ((e : StateStoreError) × (r.0 ≡ some e) × (content r.1.disk path ≡ content w.disk path))
            ⊎ ((r.0 ≡ none)
                × (validate snapshot ≡ none)
                × (text : Text) × (format.to_string_pretty snapshot ≡ some text)
                × (content r.1.disk path ≡ some (text ++ 10 ∷ [])))
      save_atomic path snapshot w = elim (Option-cases (validate snapshot)) [
        | inr (e, bad) ↦ rw (save_invalid path snapshot w e bad) (inl (e, refl, refl))
        | inl valid ↦ elim (Option-cases (format.to_string_pretty snapshot)) [
          | inl unprintable ↦
              rw (save_unprintable path snapshot w valid unprintable) (inl (json, refl, refl))
          | inr (text, printed) ↦
              let r = save_text files path text w in
              let outcome =
                Written-cases path (text ++ 10 ∷ []) w.disk (r.0, r.1.disk)
                  (save_text-Written path text w) in
              rw (save_printed path snapshot w text valid printed) (elim (Option-cases r.0) [
                | inl done ↦ inr (done, valid, text, printed, outcome.1 done)
                | inr (e, failed) ↦ inl (e, failed, outcome.0 (λ h. cc))
              ])
        ]
      ]

      -- If the JSON library reads back what it prints (a newline at the end does not matter to it),
      -- then after a `save` that reports no error, `load` returns the very snapshot, or the
      -- operating system refuses to read the file, for another reason than that there is none.
      pub load-save :
          (path : FilePath) (snapshot : StateSnapshot F) (w : World D)
          → ((text : Text)
              → format.to_string_pretty snapshot ≡ some text
              → format.from_str (text ++ 10 ∷ []) ≡ some snapshot)
          → (save files format path snapshot w).0 ≡ none
          → let d = (save files format path snapshot w).1.disk in
            (load files format path d ≡ loaded (some snapshot))
            ⊎ ((e : IoError) × (files.read_to_string path d ≡ err e) × (e ≢ not_found))
      unfolding load from_json_str
      load-save path snapshot w back done = elim (save_atomic path snapshot w) [
        | inl (e, failed, _) ↦ absurd (none-ne-some (sym done ∙ failed))
        | inr (_, valid, text, printed, held) ↦
            let d = (save files format path snapshot w).1.disk in
            elim (Io-cases (files.read_to_string path d)) [
              | inl (read, e) ↦
                  let same : read ≡ text ++ 10 ∷ [] =
                    some-injective _ _ (sym (posix.read_content path read _ e) ∙ held) in
                  inl (ground (arith, back text printed))
              | inr (f, e) ↦
                  inr (
                    f,
                    e,
                    λ h. none-ne-some (sym (posix.read_missing path _ (e ∙ ap err h)) ∙ held),
                  )
            ]
      ]
