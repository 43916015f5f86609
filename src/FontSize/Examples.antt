-- ===== src/FontSize/Examples.antt =====
-- A size that is too large, written and read.
use wootty.Base.{◌≡◌, refl, [], some, none}
use wootty.Persistence.Shelf.{shelf_api}
use wootty.FontSize.{write_font_size_preference}

written_quietly : (write_font_size_preference shelf_api (some []) 40).1 ≡ none
unfolding write_font_size_preference
written_quietly = refl
