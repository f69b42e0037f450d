-- ===== src/Storage/Local/Indexed.antt =====
-- localvault/scan.go: the indexing of one file keeps the graph of links consistent.
use para_mcp.Prelude.{Bool, true, false, [], ◌∷◌, if◌then◌else◌}
use para_mcp.Prelude.Text.{Text}
use para_mcp.Domain.Results.{Result, ok, err}
use para_mcp.Domain.Entities.{Note, FrontMatter, summary}
use para_mcp.Domain.Filter.{is_empty}
use para_mcp.Domain.Patch.{get_note_id}
use para_mcp.Domain.Path.{NormalizedPath}
use para_mcp.Storage.Notes.{parse_note, format_note, is_md_file}
use para_mcp.Storage.Links.{parse_links}
use para_mcp.Storage.Links.Laws.{parse_links-IsLinks}
use para_mcp.Storage.Local.{Site, Local, read_file, normalize_path, note_of, index_doc}
use para_mcp.Storage.Local.Mutations
use para_mcp.Storage.Local.Scan
use para_mcp.Storage.Local.Linked.{Linked, write_file-Linked, rename-Linked, stored-Linked}

module _ {N : Type 0} {X : Type 0} (e : Site N X) (derive_note_id : Text → Text → Text) where
  write_back-Linked :
      (tmp path : Text) (r : Result Text) (w : Local X)
      → Linked e w
      → Linked e (Scan.write_back e derive_note_id tmp path r w)
  unfolding Scan.write_back
  write_back-Linked tmp path (err x) w h = h
  write_back-Linked tmp path (ok file) w h =
      aside (Mutations.write_file e tmp file w) (write_file-Linked e tmp file w h)
    where
      over :
          (out : Result (Unit {0}) × Local X)
          → Linked e out.1
          → Linked e (Scan.renamed_over e derive_note_id tmp out)
      over (ok u, v) k = k
      over (err x, v) k = k

      aside :
          (out : Result (Unit {0}) × Local X)
          → Linked e out.1
          → Linked e (Scan.written_aside e derive_note_id tmp path out)
      aside (ok u, v) k = over (Mutations.rename e tmp path v) (rename-Linked e tmp path v k)
      aside (err x, v) k = k

  index_parsed-Linked :
      (np : NormalizedPath) (note : Note) (w : Local X)
      → Linked e w
      → Linked e (Scan.index_parsed e derive_note_id np note w)
  unfolding Scan.index_parsed index_doc
  index_parsed-Linked np note w h =
      stored-Linked e np (summary e.unicode note) (parse_links e.unicode note.body) w
        (parse_links-IsLinks e.unicode note.body) h

  index_identified-Linked :
      (b : Bool) (tmp : Text) (np : NormalizedPath) (note : Note) (w : Local X)
      → Linked e w
      → Linked e (Scan.index_identified e derive_note_id b tmp np note w)
  unfolding Scan.index_identified
  index_identified-Linked false tmp np note w h = index_parsed-Linked np note w h
  index_identified-Linked true tmp np note w h =
      let n = Scan.with_note_id e derive_note_id note in
      let file = format_note e.codec n.front_matter n.body in
      index_parsed-Linked np n (Scan.write_back e derive_note_id tmp np.storage file w)
        (write_back-Linked tmp np.storage file w h)

  index_note-Linked :
      (tmp : Text) (np : NormalizedPath) (w : Local X)
      → Linked e w
      → Linked e (Scan.index_note e derive_note_id tmp np w)
  unfolding Scan.index_note Scan.index_content
  index_note-Linked tmp np w h = by_raw (read_file e np.storage w)
    where
      by_parts :
          (r : Result (FrontMatter × Text))
          → Linked e (Scan.index_content e derive_note_id tmp np r w)
      by_parts (err x) = h
      by_parts (ok parts) =
          index_identified-Linked (is_empty (get_note_id (note_of e np.storage parts).front_matter))
            tmp np (note_of e np.storage parts) w h

      by_raw : (r : Result Text) → Linked e (Scan.index_raw e derive_note_id tmp np r w)
      by_raw (err x) = h
      by_raw (ok []) = h
      by_raw (ok (c ∷ raw)) = by_parts (parse_note e.codec (c ∷ raw))

  pub index_file-Linked :
      (tmp path : Text) (w : Local X)
      → Linked e w
      → Linked e (Scan.index_file e derive_note_id tmp path w)
  unfolding Scan.index_file
  index_file-Linked tmp path w h = by_kind (is_md_file e.unicode path) (normalize_path e path)
    where
      by_kind :
          (b : Bool) (r : Result NormalizedPath)
          → Linked e (if b then Scan.index_normalized e derive_note_id tmp r w else w)
      by_kind false r = h
      by_kind true (err x) = h
      by_kind true (ok np) = index_note-Linked tmp np w h
