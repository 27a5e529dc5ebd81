-- ===== src/Ports/Sublists.antt =====
-- Lists with some elements left out.
use insider_one_notification.Prelude.{List, [], ◌∷◌, ◌++◌}
use insider_one_notification.Ports.{IsSublist, none_left, keep, skip}

pub IsSublist-nil : {A : Type 0} (ns : List A) → IsSublist [] ns
IsSublist-nil [] = none_left
IsSublist-nil (n ∷ ns) = skip (IsSublist-nil ns)

pub IsSublist-refl : {A : Type 0} (ns : List A) → IsSublist ns ns
IsSublist-refl [] = none_left
IsSublist-refl (n ∷ ns) = keep (IsSublist-refl ns)

pub IsSublist-append :
    {A : Type 0} {ks ls ms ns : List A}
    → IsSublist ks ls
    → IsSublist ms ns
    → IsSublist (ks ++ ms) (ls ++ ns)
IsSublist-append none_left later = later
IsSublist-append (keep h) later = keep (IsSublist-append h later)
IsSublist-append (skip h) later = skip (IsSublist-append h later)
