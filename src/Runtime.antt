-- ===== src/Runtime.antt =====
-- How the services run: an asynchronous method is a state transformer that returns a value or
-- throws. Of interleaved requests only the order of their writes matters to the properties here,
-- and each handler is taken as one request.
pub mod Action
pub mod Repository
pub mod Number
pub mod ListTable
pub mod WholeNumber
pub mod Text
pub mod Sorting
pub mod InsertionSort
pub mod Calendar
