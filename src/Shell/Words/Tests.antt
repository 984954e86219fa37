-- ===== src/Shell/Words/Tests.antt =====
-- Splitting a line and a pipeline.
use schoolwork.Common.{arith}
use schoolwork.Common.Bytes.{Bytes, codes, IsToken}
use schoolwork.Shell.Words.{space}

abbrev ls : Bytes
ls = codes "ls"

ls-IsToken : IsToken space ls
ls-IsToken = ((λ e. cc), ((λ e. omega arith), ((λ e. omega arith), tt)))
