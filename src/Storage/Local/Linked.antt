-- ===== src/Storage/Local/Linked.antt =====
-- localvault: the steps of a write keep the graph of links consistent.
use para_mcp.Prelude.{
  sym, subst, Bool, true, false, Option, none, some, List, [], if◌then◌else◌, Bool-cases,
  Option-cases, inl, inr,
}
use para_mcp.Prelude.Text.{Text, same, dec_text}
use para_mcp.Domain.Results.{Result, ok, err}
use para_mcp.Domain.Entities.{Time, Note, CreateInput, NoteSummary, summary}
use para_mcp.Domain.Path.{NormalizedPath}
use para_mcp.Vault.{Write, attempt}
use para_mcp.Storage.Notes.{format_note}
use para_mcp.Storage.Links.{OutLink, parse_links}
use para_mcp.Storage.Links.Laws.{IsLinks, parse_links-IsLinks}
use para_mcp.Storage.Graph.{Graph, links, upsert, upsert_diff, remove_links, unchanged}
use para_mcp.Storage.Graph.Laws.{
  IsConsistent, links-upsert, links-put_links, links-remove_links, remove_links-IsConsistent,
  upsert-IsConsistent,
}
use para_mcp.Storage.Graph.Diff.{upsert_diff-IsConsistent}
use para_mcp.Prelude.Assoc.{get, put}
use para_mcp.Storage.Local.{
  write, rename_file, create_file, mutation_of, Site, Local, read_note, upsert_with_links,
  index_doc,
}
use para_mcp.Storage.Local.Mutations
use para_mcp.Storage.Local.Sync.{attempt-keeps}

-- The inverse index agrees with the links, and the links of a note have a target each.
pub record IsLinked (g : Graph) : Type 0 where
  pub consistent : IsConsistent g
  pub distinct : (p : Text) → IsLinks (links p g)

links-upsert_diff-IsLinks :
    (p : Text) (ls : List OutLink) (g : Graph)
    → IsLinks ls
    → ((q : Text) → IsLinks (links q g))
    → (q : Text) → IsLinks (links q (upsert_diff p (links p g) ls g))
unfolding upsert_diff links
links-upsert_diff-IsLinks p ls g d h q = elim (Bool-cases (unchanged (links p g) ls)) [
  | inl b ↦ rw b (h q)
  | inr b ↦ rw b (subst IsLinks (sym (links-put_links p q ls g.out_links)) (either (same p q)))
]
  where
    either : (b : Bool) → IsLinks (if b then ls else links q g)
    either true = d
    either false = h q

IsLinks-either :
    (b : Bool) (ls old : List OutLink) → IsLinks ls → IsLinks old → IsLinks (if b then ls else old)
IsLinks-either true ls old d h = d
IsLinks-either false ls old d h = h

upsert_diff-IsLinked :
    (p : Text) (ls : List OutLink) (g : Graph)
    → IsLinks ls
    → IsLinked g
    → IsLinked (upsert_diff p (links p g) ls g)
upsert_diff-IsLinked p ls g d h = record {
  consistent = upsert_diff-IsConsistent p ls g h.consistent (h.distinct p);
  distinct = links-upsert_diff-IsLinks p ls g d h.distinct;
}

pub remove_links-IsLinked : (p : Text) (g : Graph) → IsLinked g → IsLinked (remove_links p g)
remove_links-IsLinked p g h = record {
  consistent = remove_links-IsConsistent p g h.consistent;
  distinct = λ q.
      subst IsLinks (sym (links-remove_links p q g))
        (IsLinks-either (same p q) [] (links q g) tt (h.distinct q));
}

pub upsert-IsLinked :
    (p : Text) (ls : List OutLink) (g : Graph) → IsLinks ls → IsLinked g → IsLinked (upsert p ls g)
upsert-IsLinked p ls g d h = record {
  consistent = upsert-IsConsistent p ls g h.consistent;
  distinct = λ q.
      subst IsLinks (sym (links-upsert p ls g q))
        (IsLinks-either (same p q) ls (links q g) d (h.distinct q));
}

module _ {N : Type 0} {X : Type 0} (e : Site N X) where
  abbrev pub Linked : Local X → Type 0
  Linked w = IsLinked w.graph

  pub stored-Linked :
      (np : NormalizedPath) (s : NoteSummary) (ls : List OutLink) (w : Local X)
      → IsLinks ls
      → Linked w
      → Linked (upsert_with_links e np s ls w)
  unfolding upsert_with_links
  stored-Linked np s ls w d h = upsert_diff-IsLinked np.storage ls w.graph d h

  pub body_saved-Linked :
      (np : NormalizedPath) (note : Note) (w : Local X)
      → Linked w
      → Linked (Mutations.body_saved e np note w)
  unfolding Mutations.body_saved index_doc
  body_saved-Linked np note w h =
      stored-Linked np (summary e.unicode note) (parse_links e.unicode note.body) w
        (parse_links-IsLinks e.unicode note.body) h

  pub fields_saved-Linked :
      (np : NormalizedPath) (note : Note) (w : Local X)
      → Linked w
      → Linked (Mutations.fields_saved e np note w)
  unfolding Mutations.fields_saved
  fields_saved-Linked np note w h =
      stored-Linked np (summary e.unicode note) (links np.storage w.graph) w (h.distinct np.storage)
        h

  pub and_then-Linked :
      {A B : Type 0} (out : Result A × Local X) (next : A → Write (Local X) B)
      → Linked out.1
      → ((a : A) (w : Local X) → Linked w → Linked (next a w).1)
      → Linked (Mutations.and_then e out next).1
  and_then-Linked (ok a, w) next h k = k a w h
  and_then-Linked (err x, w) next h k = h

  pub attempt-Linked :
      {A B : Type 0} (r : Result A) (next : A → Write (Local X) B) (w : Local X)
      → Linked w
      → ((a : A) → Linked (next a w).1)
      → Linked (attempt r next w).1
  attempt-Linked r next w h k = attempt-keeps Linked r next w h (λ a _. k a)

  leave-Linked :
      (path : Text) (o : Option Text) (w : Local X) → Linked w → Linked (Mutations.leave e path o w)
  leave-Linked path none w h = h
  leave-Linked path (some part) w h = h

  pub write_file-Linked :
      (path file : Text) (w : Local X) → Linked w → Linked (Mutations.write_file e path file w).1
  unfolding Mutations.write_file
  write_file-Linked path file w h = elim (Option-cases (e.os.refuse write path)) [
    | inl a ↦ rw a h
    | inr (x, a) ↦ rw a (leave-Linked path (e.os.torn file) w h)
  ]

  pub rename-Linked :
      (from to : Text) (w : Local X) → Linked w → Linked (Mutations.rename e from to w).1
  unfolding Mutations.rename
  rename-Linked from to w h =
      attempt-Linked (Mutations.allowed e (e.os.refuse rename_file from))
        (λ _ v. Mutations.renamed e (get dec_text from v.files) from to v) w h
        (λ _. by_file (get dec_text from w.files))
    where
      by_file : (o : Option Text) → Linked (Mutations.renamed e o from to w).1
      by_file none = h
      by_file (some raw) = h

  pub save-Linked :
      (caches : NormalizedPath → Note → Local X → Local X) (np : NormalizedPath) (note : Note)
      (w : Local X)
      → ((v : Local X) → Linked v → Linked (caches np note v))
      → Linked w
      → Linked (Mutations.save e caches np note w).1
  unfolding Mutations.save
  save-Linked caches np note w k h =
      attempt-Linked (format_note e.codec note.front_matter note.body)
        (λ file w.
          Mutations.and_then e (Mutations.write_file e np.storage file w)
            (λ _ v. (ok (mutation_of e note), caches np note v)))
        w h
        (λ file.
          and_then-Linked (Mutations.write_file e np.storage file w)
            (λ _ v. (ok (mutation_of e note), caches np note v))
            (write_file-Linked np.storage file w h) (λ _ v. k v))

  pub create-Linked :
      (now : Time) (input : CreateInput) (w : Local X)
      → Linked w
      → Linked (Mutations.create e now input w).1
  unfolding Mutations.create Mutations.write_new Mutations.created index_doc
  create-Linked now input w h =
      attempt-Linked (Mutations.new_file e now input)
        (λ x v.
          Mutations.and_then e (Mutations.write_new e x.0.storage x.1 v)
            (λ _. Mutations.created e x.0 input.body))
        w h
        (λ x.
          and_then-Linked (Mutations.write_new e x.0.storage x.1 w)
            (λ _. Mutations.created e x.0 input.body)
            (attempt-Linked
              (Mutations.opened e (e.os.refuse create_file x.0.storage)
                (get dec_text x.0.storage w.files))
              (λ _ v.
                Mutations.write_file e x.0.storage x.1
                  (record v { files = put dec_text x.0.storage [] v.files }))
              w h
              (λ _.
                write_file-Linked x.0.storage x.1
                  (record w { files = put dec_text x.0.storage [] w.files }) h))
            (λ _ v k.
              attempt-Linked (read_note e x.0.storage v)
                (λ note v. (
                  ok (mutation_of e note),
                  index_doc e (summary e.unicode note) input.body (
                      upsert_with_links e x.0 (summary e.unicode note)
                        (parse_links e.unicode input.body) v),
                ))
                v k
                (λ note.
                  stored-Linked x.0 (summary e.unicode note) (parse_links e.unicode input.body) v
                    (parse_links-IsLinks e.unicode input.body) k)))
