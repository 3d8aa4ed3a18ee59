-- ===== src/Py.antt =====
-- What the program uses of Python itself: texts, dictionaries and exceptions.
pub mod Str
pub mod Dict
pub mod Result
pub mod Float
pub mod Number
pub mod Value
pub mod FilePath
pub mod Url
pub mod Regex
pub mod Sorted
