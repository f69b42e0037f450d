-- ===== src/Storage/Local/Mutations.antt =====
-- infrastructure/storage/localvault/mutations.go.
use para_mcp.Prelude.{Bool, true, false, not, ◌&&◌, Option, none, some, [], ◌++◌, if◌then◌else◌}
use para_mcp.Prelude.Assoc.{get, put, remove}
use para_mcp.Prelude.Text.{Text, codes, same, dec_text}
use para_mcp.Domain.Value.{Fields}
use para_mcp.Domain.Results.{Result, ok, err, Error, not_found, conflict, ◌>>=◌}
use para_mcp.Domain.Entities.{Time, Note, CreateInput, MutationResult, FrontMatter, summary}
use para_mcp.Domain.Filter.{is_empty}
use para_mcp.Domain.Patch.{apply_patch}
use para_mcp.Domain.Path.{NormalizedPath}
use para_mcp.Vault.{Write, attempt}
use para_mcp.Storage.Notes.{format_note}
use para_mcp.Storage.Links.{base, parse_links}
use para_mcp.Storage.Graph.{links, remove_links, upsert}
use para_mcp.Storage.Local.{
  write, create_file, make_dir, rename_file, remove_file, Site, Local, dir, normalize_path,
  read_note, etag_of, upsert_with_links, remove_from_indexes, index_doc, mutation_of,
  summary_to_doc,
}

module _ {N : Type 0} {X : Type 0} (e : Site N X) where
  -- a call of the operating system without an effect on the files
  abbrev pub allowed : Option Error → Result (Unit {0})
  allowed none = ok tt
  allowed (some refusal) = err refusal

  abbrev pub leave : Text → Option Text → Local X → Local X
  leave path none w = w
  leave path (some part) w = record w { files = put dec_text path part w.files }

  abbrev pub written : Option Error → Text → Text → Write (Local X) (Unit {0})
  written none path file w = (ok tt, record w { files = put dec_text path file w.files })
  written (some refusal) path file w = (err refusal, leave path (e.os.torn file) w)

  -- `os.WriteFile`
  unfoldable pub write_file : Text → Text → Write (Local X) (Unit {0})
  write_file path file w = written (e.os.refuse write path) path file w

  -- the step behind a write
  abbrev pub and_then :
      {A B : Type 0} → Result A × Local X → (A → Write (Local X) B) → Result B × Local X
  and_then (ok a, w) next = next a w
  and_then (err x, w) next = (err x, w)

  -- The note as read, where it is at the version that is asked for.
  unfoldable pub current : Text → Text → Local X → Result Note
  current path if_match w = do
    note ← read_note e path w
    if not (is_empty if_match) && not (same note.etag if_match) then err conflict else ok note

  -- the caches of a note whose body was written
  unfoldable pub body_saved : NormalizedPath → Note → Local X → Local X
  body_saved np note w =
      index_doc e (summary e.unicode note) note.body
        (upsert_with_links e np (summary e.unicode note) (parse_links e.unicode note.body) w)

  -- those of a note that keeps its body
  unfoldable pub fields_saved : NormalizedPath → Note → Local X → Local X
  fields_saved np note w =
      upsert_with_links e np (summary e.unicode note) (links np.storage w.graph) w

  -- the tail of the updates: the file, then the caches
  unfoldable pub save :
      (NormalizedPath → Note → Local X → Local X)
      → NormalizedPath
      → Note
      → Write (Local X) MutationResult
  unfolding write_file
  save caches np note = attempt (format_note e.codec note.front_matter note.body) (λ file w.
      and_then (write_file np.storage file w) (λ _ v. (ok (mutation_of e note), caches np note v)))

  -- the note with new content, and the ETag of it
  unfoldable pub edited : Time → Note → FrontMatter → Text → Note
  edited now note fm body =
      let fm' : FrontMatter = record fm { updated_at = now } in
      record note { front_matter = fm'; body = body; etag = etag_of e fm' body }

  -- `UpdateBody`
  unfoldable pub update_body : Time → Text → Text → Text → Write (Local X) MutationResult
  unfolding save current edited
  update_body now path body if_match w =
      attempt (normalize_path e path)
        (λ np v.
          attempt (current np.storage if_match v)
            (λ note. save body_saved np (edited now note note.front_matter body)) v)
        w

  -- `PatchFrontMatter`
  unfoldable pub patch_front_matter : Time → Text → Fields → Text → Write (Local X) MutationResult
  unfolding save current edited
  patch_front_matter now path fields if_match w =
      attempt (normalize_path e path)
        (λ np v.
          attempt (current np.storage if_match v)
            (λ note.
              save fields_saved np
                (edited now note (apply_patch e.unicode note.front_matter fields) note.body))
            v)
        w

  -- `Replace`
  unfoldable pub replace : Time → Text → Fields → Text → Text → Write (Local X) MutationResult
  unfolding save current edited
  replace now path fields body if_match w =
      attempt (normalize_path e path)
        (λ np v.
          attempt (current np.storage if_match v)
            (λ note.
              save body_saved np
                (edited now note (apply_patch e.unicode note.front_matter fields) body))
            v)
        w

  -- `OpenFile` with `O_EXCL`, then the write; a refused write leaves the new file
  abbrev pub opened : Option Error → Option Text → Result (Unit {0})
  opened (some refusal) found = err refusal
  opened none (some raw) = err conflict
  opened none none = ok tt

  unfoldable pub write_new : Text → Text → Write (Local X) (Unit {0})
  unfolding write_file
  write_new path file w =
      attempt (opened (e.os.refuse create_file path) (get dec_text path w.files))
        (λ _ v. write_file path file (record v { files = put dec_text path [] v.files })) w

  unfoldable pub created : NormalizedPath → Text → Write (Local X) MutationResult
  created np body w =
      attempt (read_note e np.storage w)
        (λ note v. (
          ok (mutation_of e note),
          index_doc e (summary e.unicode note) body
              (upsert_with_links e np (summary e.unicode note) (parse_links e.unicode body) v),
        ))
        w

  -- the steps of `Create` before the file: the path, the directory, the content
  unfoldable pub new_file : Time → CreateInput → Result (NormalizedPath × Text)
  new_file now input = do
    np ← normalize_path e input.path
    made ← allowed (e.os.refuse make_dir (dir np.storage))
    file ←
        format_note e.codec (record input.front_matter { created_at = now; updated_at = now })
          input.body
    ok (np, file)

  -- `Create`
  unfoldable pub create : Time → CreateInput → Write (Local X) MutationResult
  unfolding write_new created new_file
  create now input =
      attempt (new_file now input)
        (λ x v. and_then (write_new x.0.storage x.1 v) (λ _. created x.0 input.body))

  abbrev pub renamed : Option Text → Text → Text → Write (Local X) (Unit {0})
  renamed none from to w = (err not_found, w)
  renamed (some raw) from to w =
      (ok tt, record w { files = put dec_text to raw (remove dec_text from w.files) })

  -- `os.Rename`: a file that is there is replaced
  unfoldable pub rename : Text → Text → Write (Local X) (Unit {0})
  rename from to w =
      attempt (allowed (e.os.refuse rename_file from))
        (λ _ v. renamed (get dec_text from v.files) from to v) w

  -- the caches of a note that was moved
  unfoldable pub moved : NormalizedPath → NormalizedPath → Note → Local X → Local X
  moved np nnp note w = record w {
    cache =
        put dec_text nnp.index_key (summary e.unicode note) (remove dec_text np.index_key w.cache);
    graph = upsert nnp.storage (parse_links e.unicode note.body) (remove_links np.storage w.graph);
    index =
        e.fts.add (summary_to_doc (summary e.unicode note) note.body)
          (e.fts.remove_doc (record { scope = e.scope; path = np.storage }) w.index);
  }

  abbrev pub at_path : Note → Text → Note
  at_path note path = record note { ref = record note.ref { path = path } }

  -- the steps of `Move` before the file: both paths, the note as it will be, the directory
  unfoldable pub move_plan :
      Text → Text → Text → Local X → Result (NormalizedPath × NormalizedPath × Note)
  unfolding current
  move_plan path new_path if_match w = do
    np ← normalize_path e path
    nnp ← normalize_path e new_path
    note ← current np.storage if_match w
    made ← allowed (e.os.refuse make_dir (dir nnp.storage))
    ok (np, nnp, at_path note nnp.storage)

  -- `Move`
  unfoldable pub move : Text → Text → Text → Write (Local X) MutationResult
  unfolding move_plan rename moved
  move path new_path if_match w =
      attempt (move_plan path new_path if_match w)
        (λ x v.
          and_then (rename x.0.storage x.1.storage v)
            (λ _ z. (ok (mutation_of e x.2), moved x.0 x.1 x.2 z)))
        w

  abbrev pub unlinked : Option Text → Text → Write (Local X) (Unit {0})
  unlinked none path w = (err not_found, w)
  unlinked (some raw) path w = (ok tt, record w { files = remove dec_text path w.files })

  -- the file of a deleted note: moved to the trash, under its base name, or removed
  unfoldable pub discard : Bool → Text → Write (Local X) (Unit {0})
  unfolding rename
  discard true path w =
      attempt (allowed (e.os.refuse make_dir (codes ".trash")))
        (λ _. rename path (codes ".trash/" ++ base path)) w
  discard false path w =
      attempt (allowed (e.os.refuse remove_file path))
        (λ _ v. unlinked (get dec_text path v.files) path v) w

  -- the version is compared only where one is asked for
  abbrev pub version_checked : Bool → Result Note → Result (Unit {0})
  version_checked true r = ok tt
  version_checked false (ok note) = ok tt
  version_checked false (err x) = err x

  -- `Delete`
  unfoldable pub delete : Text → Bool → Text → Write (Local X) (Unit {0})
  unfolding discard current
  delete path soft if_match w =
      attempt (normalize_path e path)
        (λ np v.
          attempt (version_checked (is_empty if_match) (current np.storage if_match v))
            (λ _ z.
              and_then (discard soft np.storage z) (λ _ y. (ok tt, remove_from_indexes e np y)))
            v)
        w
