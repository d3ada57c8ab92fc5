-- ===== src/Text/Like.antt =====
-- LIKE of SQL: `%` stands for any text, `_` for any byte, and a backslash takes its meaning from the
-- byte after it. (In the database `_` stands for a character, which may be more than one byte.)
use passport.Base.{ℕ, Bool, true, false, List, [], ◌∷◌, ◌++◌, ◌&&◌, ◌||◌, ◌==◌, if◌then◌else◌}
use passport.Text.{Text}

-- A pattern, taken apart.
pub data Part : Type 0 where
  any one : Part
  byte : ℕ → Part

part_of : ℕ → Part
part_of c = if c == 37 then Part.any else if c == 95 then Part.one else Part.byte c

-- Whether the byte before was a backslash.
parts_from : Bool → Text → List Part
unfolding part_of
parts_from escaped [] = []
parts_from true (c ∷ cs) = Part.byte c ∷ parts_from false cs
parts_from false (c ∷ cs) =
    let plain = part_of c ∷ parts_from false cs in
    let quoted = parts_from true cs in if c == 92 then quoted else plain

fits : List Part → Text → Bool
fits [] [] = true
fits [] (c ∷ s) = false
fits (Part.any ∷ ps) [] = fits ps []
fits (Part.any ∷ ps) (c ∷ s) = fits ps (c ∷ s) || fits (Part.any ∷ ps) s
fits (Part.one ∷ ps) [] = false
fits (Part.one ∷ ps) (c ∷ s) = fits ps s
fits (Part.byte d ∷ ps) [] = false
fits (Part.byte d ∷ ps) (c ∷ s) = c == d && fits ps s

-- column LIKE '%' || s || '%'
unfoldable pub like_around : Text → Text → Bool
unfolding parts_from fits
like_around s column = fits (parts_from false (37 ∷ s ++ 37 ∷ [])) column
