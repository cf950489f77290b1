-- ===== src/Fmt/Tests.antt =====
-- Runs of the model of runtime/vader_fmt.c.
use vader_langue.Prelude.{◌≡◌, refl, negsuc, codes}
use vader_langue.Libc.{print_int}
use vader_langue.Fmt.{from_int}

from_int_min : from_int (negsuc 9223372036854775807) ≡ codes "-9223372036854775808"
unfolding from_int print_int
from_int_min = refl
