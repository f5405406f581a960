-- ===== src/Util/Shell/Tests.antt =====
-- Runs of the quoting of words for a shell.
use wake.Prelude.{[], codes, ◌≡◌, refl}
use wake.Util.Shell.{shell_escape}

shell_escape_runs :
    (shell_escape (codes "a=b/c.o") ≡ codes "a=b/c.o")
    × (shell_escape [] ≡ codes "''")
    × (shell_escape (codes "it's") ≡ codes "'it'\\''s'")
unfolding shell_escape
shell_escape_runs = (refl, refl, refl)
