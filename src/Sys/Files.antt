-- ===== src/Sys/Files.antt =====
-- runtime/vader_fs.c: whole files. The files are a store of their contents by path.
use vader_langue.Prelude.{
  ◌≡◌, refl, ap, ◌∙◌, arith, Bool, true, false, Option, none, some, [], ◌++◌, Bytes, bytes_eq,
  bytes_eq_refl, if◌then◌else◌, length, take, take-all, ℤ, pos, negsuc,
}

-- `none` for a path with no file.
abbrev pub Store : Type 0
Store = Bytes → Option Bytes

abbrev pub store_at : Store → Bytes → Option Bytes → Store
store_at files path content p = if bytes_eq path p then content else files p

abbrev pub old_text : Option Bytes → Bytes
old_text none = []
old_text (some content) = content

-- `n` is what `ftell` gives at the end of the file, -1 where the file has no end to seek.
abbrev pub read_opened : ℤ → Option Bytes → Bytes
read_opened n none = []
read_opened (negsuc n) (some content) = []
read_opened (pos n) (some content) = take n content

unfoldable pub fs_read_file : (Bytes → ℤ) → Bytes → Store → Bytes
fs_read_file tell path files = read_opened (tell path) (files path)

-- `opens` is whether `fopen` gives a file to write.
unfoldable pub fs_write_file : (Bytes → Bool) → Bytes → Bytes → Store → Bool × Store
fs_write_file opens path content files =
    if opens path then (true, store_at files path (some content)) else (false, files)

unfoldable pub fs_append_file : (Bytes → Bool) → Bytes → Bytes → Store → Bool × Store
fs_append_file opens path content files =
    if opens path
    then (true, store_at files path (some (old_text (files path) ++ content)))
    else (false, files)

abbrev pub is_there : Option Bytes → Bool
is_there none = false
is_there (some content) = true

unfoldable pub fs_exists : Bytes → Store → Bool
fs_exists path files = is_there (files path)

-- `removes` is whether the operating system lets go of the file.
unfoldable pub fs_remove : (Bytes → Bool) → Bytes → Store → Bool × Store
fs_remove removes path files =
    if (if is_there (files path) then removes path else false)
    then (true, store_at files path none)
    else (false, files)

store_at-same :
    (files : Store) (path : Bytes) (content : Option Bytes)
    → store_at files path content path ≡ content
store_at-same files path content = rw (bytes_eq_refl path) refl

-- Where a file can be opened and its size is told: what is written and then appended to is read
-- back, the new text behind the old one.
pub fs_read_file-append :
    (opens : Bytes → Bool) (tell : Bytes → ℤ) (path a b : Bytes) (files : Store)
    → opens path ≡ true
    → tell path ≡ pos (length (a ++ b))
    → fs_read_file tell path (fs_append_file opens path b (fs_write_file opens path a files).1).1
      ≡ a ++ b
unfolding fs_read_file fs_append_file fs_write_file
fs_read_file-append opens tell path a b files h e =
    rw (h, e)
      (ap (read_opened (pos (length (a ++ b)))) (
          store_at-same (store_at files path (some a)) path _
          ∙ ap (λ t. some (old_text t ++ b)) (store_at-same files path (some a)))
        ∙ take-all (length (a ++ b)) (a ++ b) (omega arith))
