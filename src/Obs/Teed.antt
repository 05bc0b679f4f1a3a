-- ===== src/Obs/Teed.antt =====
-- What the two sinks of `TeeWriter` in src/obs.rs hold.
use mathlib.Core.List.{append-nil, append_assoc}
use http_cache.Body.{Bytes}
use http_cache.Prelude.{[], ◌∷◌, List, ◌≡◌, ◌++◌, sym, ◌∙◌, take}
use http_cache.Obs.{TeeWriter, Taken, whole, broken_off, taken_of, write}

-- The records that both sinks have taken whole, of those that were written.
abbrev pub Writes : Type 0
Writes = List (Taken × Taken × Bytes)

unfoldable pub write_each : Writes → TeeWriter → TeeWriter
unfolding write
write_each [] t = t
write_each ((l, r, buf) ∷ writes) t = write_each writes (write l r buf t).0

-- What reaches the first sink, and what the second.
abbrev pub to_left : Writes → Bytes
to_left [] = []
to_left ((l, r, buf) ∷ writes) = taken_of l buf ++ to_left writes

abbrev pub to_right : Writes → Bytes
to_right [] = []
to_right ((whole, r, buf) ∷ writes) = taken_of r buf ++ to_right writes
to_right ((broken_off n message, r, buf) ∷ writes) = to_right writes

-- The first sink gets every record, as far as it takes it. The second gets, as far as it takes them,
-- exactly those that the first has taken whole.
pub write_each-Teed :
    (writes : Writes) (t : TeeWriter)
    → ((write_each writes t).left ≡ t.left ++ to_left writes)
      × ((write_each writes t).right ≡ t.right ++ to_right writes)
unfolding write_each write
write_each-Teed [] t = (sym (append-nil t.left), sym (append-nil t.right))
write_each-Teed ((whole, whole, buf) ∷ writes) t =
    let (l, r) = write_each-Teed writes (write whole whole buf t).0 in
    (l ∙ append_assoc t.left buf _, r ∙ append_assoc t.right buf _)
write_each-Teed ((whole, broken_off n m, buf) ∷ writes) t =
    let (l, r) = write_each-Teed writes (write whole (broken_off n m) buf t).0 in
    (l ∙ append_assoc t.left buf _, r ∙ append_assoc t.right (take n buf) _)
write_each-Teed ((broken_off n m, k, buf) ∷ writes) t =
    let (l, r) = write_each-Teed writes (write (broken_off n m) k buf t).0 in
    (l ∙ append_assoc t.left (take n buf) _, r)
