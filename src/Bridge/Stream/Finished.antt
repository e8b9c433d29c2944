-- ===== src/Bridge/Stream/Finished.antt =====
-- When `Stream` ends without an error.
use xscope_hub.Prelude.{
  Bytes, Option, none, some, List, [], ◌∷◌, Outcome, ok, err, is_ok, Dict, ◌≡◌, true, All, ℕ, codes,
  insert,
}
use xscope_hub.Bridge.Window.{Window}
use xscope_hub.Bridge.Stream.{Source, search_url, type_request}
use xscope_hub.Bridge.Stream.Merged.{lines_of}
use xscope_hub.Bridge.Stream.Lines.{IsLine, text_of}

module _ {J : Type 0} (source : Source J) where
  -- Not the line `null`, for which the map stays nil.
  abbrev pub IsNotNil : Outcome Bytes (Option (Dict J)) → Type 0
  IsNotNil (ok none) = ⊥
  IsNotNil (ok (some _)) = Unit
  IsNotNil (err _) = Unit

  abbrev pub IsNotNull : Bytes → Type 0
  IsNotNull line = IsNotNil (source.decode line)

  -- The request for a type is made and answered, by lines other than `null`.
  abbrev Answered : Bytes → Dict Bytes → Window → Bytes → Type 0
  Answered endpoint headers w typ =
      (source.refused_url (search_url endpoint typ w) ≡ none)
      × (is_ok (source.send (type_request source endpoint headers w typ)) ≡ true)
      × All IsNotNull (lines_of source (source.send (type_request source endpoint headers w typ)))

  -- The request for a type is made and answered by the lines, none of which is `null`.
  abbrev pub Gives : Bytes → Dict Bytes → Window → Bytes → List Bytes → Type 0
  Gives endpoint headers w typ lines =
      (source.refused_url (search_url endpoint typ w) ≡ none)
      × (status : ℕ) × (source.send (type_request source endpoint headers w typ)
          ≡ ok (record { status = status; body = text_of lines }))
      × All IsLine lines
      × All IsNotNull lines

  -- A record with its type and, where one is given, the tenant set.
  abbrev pub marked_as : Bytes → Bytes → Dict J → Dict J
  marked_as typ [] rec = insert (codes "type") (source.text typ) rec
  marked_as typ (c ∷ tenant) rec =
      insert (codes "tenant") (source.text (c ∷ tenant))
        (insert (codes "type") (source.text typ) rec)

  -- The records of the lines that hold one.
  unfoldable pub records_of : Bytes → Bytes → List Bytes → List (Dict J)
  records_of typ tenant [] = []
  records_of typ tenant (line ∷ lines) =
      let rest = records_of typ tenant lines in
      elim (source.decode line) [
        | ok (some rec) ↦ marked_as typ tenant rec ∷ rest
        | ok none ↦ rest
        | err _ ↦ rest
      ]
