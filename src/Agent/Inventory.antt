-- ===== src/Agent/Inventory.antt =====
-- The packages and the credentials of a machine travel where both sides say so.
use pkgwatch.Base.{[], ◌≡◌}
use pkgwatch.Base.Text.{Text}
use pkgwatch.Fleet.{Quarantined}

-- A quarantined file whose path is withheld.
abbrev pub IsPathless : Quarantined → Type 0
IsPathless q = q.origin_path ≡ []
