-- ===== src/Sys/Tests.antt =====
-- Runs of the models of runtime/vader_fs.c, vader_math.c and vader_time.c.
use vader_langue.Prelude.{
  ◌≡◌, refl, true, some, none, [], ◌∷◌, ◌++◌, codes, pos, negsuc, take, get_elem?,
}
use vader_langue.Sys.{math_abs_int, time_sleep, env_read}
use vader_langue.Sys.Files.{fs_read_file, fs_write_file, fs_append_file, fs_read_file-append}
use vader_langue.Sys.Lines.{fs_read_line, fs_read_line_lem}

fs_read_line_lem_example :
    (take 2 (fs_read_line 7 (codes "ab" ++ 10 ∷ codes "cd")).0 ≡ codes "ab")
    × (get_elem? (fs_read_line 7 (codes "ab" ++ 10 ∷ codes "cd")).0 2 ≡ some 0)
    × ((fs_read_line 7 (codes "ab" ++ 10 ∷ codes "cd")).1 ≡ codes "cd")
fs_read_line_lem_example = fs_read_line_lem 7 (codes "ab" ++ 10 ∷ codes "cd")

appended :
    fs_read_file
      (λ p. pos 3)
      (codes "f")
      (fs_append_file
        (λ p. true)
        (codes "f")
        (codes "c")
        (fs_write_file (λ p. true) (codes "f") (codes "ab") (λ p. none)).1).1
    ≡ codes "abc"
appended =
    fs_read_file-append (λ p. true) (λ p. pos 3) (codes "f") (codes "ab") (codes "c") (λ p. none)
      refl refl

-- A second and a half before now.
slept_back : (time_sleep (negsuc 1499)).tv_nsec ≡ negsuc 499999999
unfolding time_sleep
slept_back = refl

abs_of_minus_three : math_abs_int (negsuc 2) ≡ pos 3
unfolding math_abs_int
abs_of_minus_three = refl

no_variable : env_read (λ name. none) (codes "HOME") ≡ []
unfolding env_read
no_variable = refl
